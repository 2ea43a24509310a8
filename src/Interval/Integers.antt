-- ===== src/Interval/Integers.antt =====
-- The operations on Python's integers that `Engine.analyze` of
-- Tools/EmbeddedApplicationMacros/initialization_interval.py hands to `arithmetic`, and what
-- `arithmetic` computes of a machine's values.
use Prim.Native.Nat.{bit_and, bit_or, bit_xor}
use axoloty_embedded.Prelude.{
  ◌+◌, ◌-◌, ◌*◌, ◌/◌, ◌^◌, ◌≡◌, refl, Bool, true, false, ◌||◌, List, [], ◌∷◌, none, some, ltb,
  if◌then◌else◌, inl, inr, any, In,
}
use axoloty_embedded.Prelude.Int.{ℤ, pos, negsuc, ltb_ℤ, eq_ℤ_iff}
use axoloty_embedded.Interval.{
  Values, holds, operate, results_for, results, arithmetic, low_bits, is_deep,
}
use axoloty_embedded.Interval.Sound.{
  May, holds-add_value, holds-add_value_same, holds-join_sets_left, holds-join_sets_right,
  bounded-May,
}
use axoloty_embedded.Interval.Registers.{holds-In}
use axoloty_embedded.Interval.Branch.{signed}

-- Bitwise operations in two's complement: `negsuc n` has the bits of n inverted.
unfoldable pub int_and : ℤ → ℤ → ℤ
int_and (pos a) (pos b) = pos (bit_and a b)
int_and (pos a) (negsuc b) = pos (a - bit_and a b)
int_and (negsuc a) (pos b) = pos (b - bit_and b a)
int_and (negsuc a) (negsuc b) = negsuc (bit_or a b)

unfoldable pub int_or : ℤ → ℤ → ℤ
int_or (pos a) (pos b) = pos (bit_or a b)
int_or (pos a) (negsuc b) = negsuc (b - bit_and b a)
int_or (negsuc a) (pos b) = negsuc (a - bit_and a b)
int_or (negsuc a) (negsuc b) = negsuc (bit_and a b)

unfoldable pub int_xor : ℤ → ℤ → ℤ
int_xor (pos a) (pos b) = pos (bit_xor a b)
int_xor (pos a) (negsuc b) = negsuc (bit_xor a b)
int_xor (negsuc a) (pos b) = negsuc (bit_xor a b)
int_xor (negsuc a) (negsuc b) = pos (bit_xor a b)

-- `a << b` and `(a & 0xffffffff) >> b`; the caller refuses a negative count, as Python does.
unfoldable pub shift_left : ℤ → ℤ → ℤ
shift_left (pos a) (pos b) = pos (a * 2 ^ b)
shift_left (negsuc a) (pos b) = negsuc ((a + 1) * 2 ^ b - 1)
shift_left a (negsuc b) = a

unfoldable pub shift_right : ℤ → ℤ → ℤ
shift_right a (pos b) = pos (low_bits a / 2 ^ b)
shift_right a (negsuc b) = a

abbrev truth_number : Bool → ℤ
truth_number b = if b then pos 1 else pos 0

abbrev pub less_unsigned : ℤ → ℤ → ℤ
less_unsigned a b = truth_number (ltb (low_bits a) (low_bits b))

abbrev pub less_signed : ℤ → ℤ → ℤ
less_signed a b = truth_number (ltb_ℤ (signed a) (signed b))

integers_run :
    (int_and (negsuc 15) (pos 255) ≡ pos 240)
    × (int_or (pos 1) (negsuc 3) ≡ negsuc 2)
    × (int_xor (negsuc 0) (pos 5) ≡ negsuc 5)
    × (shift_left (negsuc 1) (pos 4) ≡ negsuc 31)
    × (shift_right (negsuc 0) (pos 28) ≡ pos 15)
    × (less_signed (pos 4294967295) (pos 0) ≡ pos 1)
unfolding int_and int_or int_xor shift_left shift_right
integers_run = (refl, refl, refl, refl, refl, refl)

holds-results_for :
    (f : ℤ → ℤ → ℤ) (x y : ℤ) (ys : List ℤ)
    → In y ys
    → holds (operate f x y) (results_for f x ys) ≡ true
unfolding results_for
holds-results_for f x y [] m = absurd m
holds-results_for f x y (z ∷ ys) (inl e) =
    holds-add_value_same (operate f x y) (operate f x z) (results_for f x ys)
      ((eq_ℤ_iff (operate f x y) (operate f x z)).1 (rw e refl))
holds-results_for f x y (z ∷ ys) (inr m) =
    holds-add_value (operate f x y) (operate f x z) (results_for f x ys)
      (holds-results_for f x y ys m)

holds-results :
    (f : ℤ → ℤ → ℤ) (x y : ℤ) (xs ys : List ℤ)
    → In x xs
    → In y ys
    → holds (operate f x y) (results f xs ys) ≡ true
unfolding results
holds-results f x y [] ys m n = absurd m
holds-results f x y (z ∷ xs) ys (inl e) n =
    holds-join_sets_left (operate f x y) (results_for f z ys) (results f xs ys)
      (rw (← e) (holds-results_for f x y ys n))
holds-results f x y (z ∷ xs) ys (inr m) n =
    holds-join_sets_right (operate f x y) (results_for f z ys) (results f xs ys)
      (holds-results f x y xs ys m n)

May-if : (v : ℤ) (test : Bool) (a : Values) → May v a → May v (if test then none else a)
May-if v true a m = tt
May-if v false a m = m

-- The result of an operation on two values that may stand in the operands may stand in the result.
pub arithmetic-May :
    (f : ℤ → ℤ → ℤ) (x y : ℤ) (a b : Values)
    → May x a
    → May y b
    → May (operate f x y) (arithmetic a b f)
unfolding arithmetic
arithmetic-May f x y none b m n = tt
arithmetic-May f x y (some xs) none m n = tt
arithmetic-May f x y (some xs) (some ys) m n =
    May-if (operate f x y) (any is_deep xs || any is_deep ys) _ (
      bounded-May (operate f x y) (results f xs ys)
        (holds-results f x y xs ys (holds-In x xs m) (holds-In y ys n)))
