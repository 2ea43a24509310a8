-- ===== src/Interval/Sound.antt =====
-- The join of two states and the arithmetic on sets lose facts, but invent none.
use axoloty_embedded.Prelude.{
  ◌≡◌, true, none, some, List, [], ◌∷◌, leb, length, arith, Bool-cases, inl, inr, ◌⊎◌,
}
use mathlib.Core.Path.{subst}
use axoloty_embedded.Prelude.Int.{ℤ, eq_ℤ}
use axoloty_embedded.Outcome.{ok, reject_if-eq-ok, ok-eq}
use axoloty_embedded.Interval.{
  holds, union, join_registers, add_value, join_sets, merge, Values, bounded, State,
}

-- The value may be in the register: the set is TOP or holds it.
abbrev pub May : ℤ → Values → Type 0
May v none = Unit {0}
May v (some vs) = holds v vs ≡ true

pub holds-add_value : (v x : ℤ) (vs : List ℤ) → holds v vs ≡ true → holds v (add_value x vs) ≡ true
unfolding add_value
holds-add_value v x vs h = ground arith

eq_ℤ_trans : (v x w : ℤ) → eq_ℤ v x ≡ true → eq_ℤ x w ≡ true → eq_ℤ v w ≡ true
eq_ℤ_trans v x w h k = ground arith

holds_same : (v x : ℤ) (vs : List ℤ) → eq_ℤ v x ≡ true → holds x vs ≡ true → holds v vs ≡ true
holds_same v x [] e h = h
holds_same v x (w ∷ vs) e h = elim (Bool-cases (eq_ℤ x w)) [
  | inl k ↦ let here = eq_ℤ_trans v x w e k in ground arith
  | inr k ↦ let later = holds_same v x vs e (ground arith) in ground arith
]

pub holds-add_value_same :
    (v x : ℤ) (vs : List ℤ) → eq_ℤ v x ≡ true → holds v (add_value x vs) ≡ true
unfolding add_value
holds-add_value_same v x vs h = elim (Bool-cases (holds x vs)) [
  | inl e ↦ rw e (holds_same v x vs h e)
  | inr e ↦ rw e (let here = h in ground arith)
]

pub holds-join_sets_left :
    (v : ℤ) (xs ys : List ℤ) → holds v xs ≡ true → holds v (join_sets xs ys) ≡ true
unfolding join_sets
holds-join_sets_left v [] ys h = absurd (cc)
holds-join_sets_left v (x ∷ xs) ys h = elim (Bool-cases (eq_ℤ v x)) [
  | inl e ↦ holds-add_value_same v x (join_sets xs ys) e
  | inr e ↦ holds-add_value v x (join_sets xs ys) (holds-join_sets_left v xs ys (ground arith))
]

pub holds-join_sets_right :
    (v : ℤ) (xs ys : List ℤ) → holds v ys ≡ true → holds v (join_sets xs ys) ≡ true
unfolding join_sets
holds-join_sets_right v [] ys h = h
holds-join_sets_right v (x ∷ xs) ys h =
    holds-add_value v x (join_sets xs ys) (holds-join_sets_right v xs ys h)

pub bounded-May : (v : ℤ) (vs : List ℤ) → holds v vs ≡ true → May v (bounded vs)
unfolding bounded
bounded-May v vs h = elim (Bool-cases (leb (length vs) 32)) [ inl e ↦ rw e h | inr e ↦ rw e tt ]

pub union-May : (v : ℤ) (a b : Values) → May v a ⊎ May v b → May v (union a b)
unfolding union
union-May v none b m = tt
union-May v (some xs) none m = tt
union-May v (some xs) (some ys) (inl m) =
    bounded-May v (join_sets xs ys) (holds-join_sets_left v xs ys m)
union-May v (some xs) (some ys) (inr m) =
    bounded-May v (join_sets xs ys) (holds-join_sets_right v xs ys m)

-- Register values that a list of sets describes.
abbrev pub Describes : List Values → List ℤ → Type 0
Describes [] [] = Unit {0}
Describes (a ∷ xs) (v ∷ vs) = May v a × Describes xs vs
Describes [] (v ∷ vs) = ⊥
Describes (a ∷ xs) [] = ⊥

join_registers-Describes :
    (xs bs : List Values) (vs : List ℤ)
    → length xs ≡ length bs
    → Describes xs vs ⊎ Describes bs vs
    → Describes (join_registers xs bs) vs
unfolding join_registers
join_registers-Describes [] [] [] e m = tt
join_registers-Describes [] [] (v ∷ vs) e (inl m) = m
join_registers-Describes [] [] (v ∷ vs) e (inr m) = m
join_registers-Describes [] (b ∷ bs) vs e m = absurd (omega (arith, e))
join_registers-Describes (a ∷ xs) [] vs e m = absurd (omega (arith, e))
join_registers-Describes (a ∷ xs) (b ∷ bs) [] e (inl m) = m
join_registers-Describes (a ∷ xs) (b ∷ bs) [] e (inr m) = m
join_registers-Describes (a ∷ xs) (b ∷ bs) (v ∷ vs) e (inl m) =
    (union-May v a b (inl m.0), join_registers-Describes xs bs vs (omega (arith, e)) (inl m.1))
join_registers-Describes (a ∷ xs) (b ∷ bs) (v ∷ vs) e (inr m) =
    (union-May v a b (inr m.0), join_registers-Describes xs bs vs (omega (arith, e)) (inr m.1))

-- If `merge` returns a state for two states with equally many registers, then the returned state
-- describes all register values that one of the two describes.
pub merge-Describes :
    (a b c : State) (vs : List ℤ)
    → merge a b ≡ ok c
    → length a.regs ≡ length b.regs
    → Describes a.regs vs ⊎ Describes b.regs vs
    → Describes c.regs vs
unfolding merge
merge-Describes a b c vs h e m =
    let (same, k) = reject_if-eq-ok _ _ _ h in
    subst (λ (s : State). Describes s.regs vs) (ok-eq k)
      (join_registers-Describes a.regs b.regs vs e m)
