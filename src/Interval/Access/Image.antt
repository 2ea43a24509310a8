-- ===== src/Interval/Access/Image.antt =====
-- The bytes of the image that a load reads, and what a load puts into its register.
use native.Mathlib.Nat.{pow-suc, mul_assoc, mul_comm}
use axoloty_embedded.Prelude.{
  ℕ, zero, suc, ◌+◌, ◌-◌, ◌*◌, ◌^◌, ◌≡◌, ◌≤◌, ◌<◌, refl, Bool, true, false, ◌&&◌, String, str_eq,
  str_eq_iff, Option, none, some, List, [], ◌∷◌, In, inl, inr, ◌⊎◌, if◌then◌else◌, ltb, leb, select,
  take, drop, get_or, length, arith, ap, sym, ◌∙◌, &&_both, In-select_elim,
}
use mathlib.Core.Path.{subst}
use axoloty_embedded.Prelude.Int.{ℤ, pos, negsuc}
use axoloty_embedded.Interval.{Place}
use axoloty_embedded.Interval.Sound.{May}
use axoloty_embedded.Interval.Registers.{In-holds}
use axoloty_embedded.Interval.Access.{
  Section, little, covers, one_match, read, extended, sign_extending,
}

-- The number in the first bytes of a list, the byte at i counting 256 ^ i.
unfoldable pub number_of : List ℕ → ℕ → ℕ
number_of bytes zero = 0
number_of bytes (suc n) = number_of bytes n + 256 ^ n * get_or bytes n 0

-- What the machine holds in a read-only section of the image is what the image has there.
abbrev pub Immutable : List Section → (Place → ℤ) → Type 0
Immutable sections actual =
    (s : Section)
    → In s sections
    → s.readonly ≡ true
    → (offset size : ℕ) → offset + size ≤ length s.bytes
    → actual (pos (s.start + offset), size) ≡ pos (number_of (drop offset s.bytes) size)

peel : (n v : ℕ) → 256 ^ suc n * v ≡ 256 * (256 ^ n * v)
peel n v = rw (pow-suc 256 n, mul_comm (256 ^ n) 256) (mul_assoc 256 (256 ^ n) v)

number_of-cons :
    (x : ℕ) (xs : List ℕ) (n : ℕ) → number_of (x ∷ xs) (suc n) ≡ x + 256 * number_of xs n
unfolding number_of
number_of-cons x xs zero = omega arith
number_of-cons x xs (suc n) =
    let ih = number_of-cons x xs n in
    let e : 256 ^ suc n * get_or (x ∷ xs) (suc n) 0 ≡ 256 * (256 ^ n * get_or xs n 0) =
      peel n (get_or xs n 0) in
    omega (arith, ih, e)

number_of-nil : (n : ℕ) → number_of [] n ≡ 0
unfolding number_of
number_of-nil zero = refl
number_of-nil (suc n) = omega (arith, number_of-nil n)

little-take : (n : ℕ) (xs : List ℕ) → little (take n xs) ≡ number_of xs n
unfolding little number_of
little-take zero xs = refl
little-take (suc n) [] = sym (number_of-nil (suc n))
little-take (suc n) (x ∷ xs) =
    ap (λ k. x + 256 * k) (little-take n xs) ∙ sym (number_of-cons x xs n)

module _ (sections : List Section) (actual : Place → ℤ) (image : Immutable sections actual) where
  inside_section :
      (s : Section) (address size : ℕ)
      → In s sections
      → covers address size s ≡ true
      → actual (pos address, size) ≡ pos (little (take size (drop (address - s.start) s.bytes)))
  inside_section s address size m c =
      let (before, behind) =
        &&_both (s.readonly && leb s.start address)
          (leb (address + size) (s.start + length s.bytes)) c in
      let (readonly, start) = &&_both s.readonly (leb s.start address) before in
      let l : s.start ≤ address = ground arith in
      let h : address + size ≤ s.start + length s.bytes = ground arith in
      let e : s.start + (address - s.start) ≡ address = omega (arith, l) in
      let there = image s m readonly (address - s.start) size (omega (arith, l, h)) in
      subst
        (λ a. actual (pos a, size) ≡ pos (little (take size (drop (address - s.start) s.bytes)))) e
        (there ∙ ap (λ n. pos n) (sym (little-take size (drop (address - s.start) s.bytes))))

  one_match-May :
      (address size : ℕ) (found : List Section)
      → ((s : Section) → In s found → In s sections × (covers address size s ≡ true))
      → May (actual (pos address, size)) (one_match address size found)
  one_match-May address size [] h = tt
  one_match-May address size (s ∷ []) h =
      let (m, c) = h s (inl refl) in
      let v = pos (little (take size (drop (address - s.start) s.bytes))) in
      In-holds (actual (pos address, size)) (v ∷ []) (inl (inside_section s address size m c))
  one_match-May address size (s ∷ t ∷ rest) h = tt

  -- What is read off the image may stand in the machine's memory.
  pub read-May :
      (pointer : ℤ) (size : ℕ) → May (actual (pointer, size)) (read sections pointer size)
  unfolding read
  read-May (pos address) size =
      one_match-May address size (select (covers address size) sections)
        (λ s. In-select_elim (covers address size) sections s)
  read-May (negsuc n) size = tt

-- What the machine puts into the register of a load of that name and size, when v stands in memory:
-- lb and lh extend the sign of a byte and of a half word to the word, the others leave v as it is.
abbrev pub Receives : String → ℕ → ℤ → ℤ → Type 0
Receives m size v w =
    ((m ≡ "lb")
      × (size ≡ 1)
      × (x : ℕ) × (x < 256)
      × (v ≡ pos x)
      × (w ≡ pos (if ltb x 128 then x else x + 4294967040)))
    ⊎ ((m ≡ "lh")
        × (size ≡ 2)
        × (x : ℕ) × (x < 65536)
        × (v ≡ pos x)
        × (w ≡ pos (if ltb x 32768 then x else x + 4294901760)))
    ⊎ ((str_eq m "lb" ≡ false) × (str_eq m "lh" ≡ false) × (w ≡ v))

-- What the code puts there.
abbrev pub received : Bool → ℕ → ℤ → ℤ
received sign size v = if sign then extended size v else v

extended_byte :
    (x : ℕ) → x < 256 → extended 1 (pos x) ≡ pos (if ltb x 128 then x else x + 4294967040)
unfolding axoloty_embedded.Prelude.Int.◌-ℤ◌
extended_byte x l = ground arith

extended_half :
    (x : ℕ) → x < 65536 → extended 2 (pos x) ≡ pos (if ltb x 32768 then x else x + 4294901760)
unfolding axoloty_embedded.Prelude.Int.◌-ℤ◌
extended_half x l = ground arith

pub received-Receives :
    (m : String) (size : ℕ) (v w : ℤ) → Receives m size v w → received (sign_extending m) size v ≡ w
received-Receives m size v w (inl (e, s, x, l, p, q)) = rw (e, s, p, q) (extended_byte x l)
received-Receives m size v w (inr (inl (e, s, x, l, p, q))) = rw (e, s, p, q) (extended_half x l)
received-Receives m size v w (inr (inr (b, h, e))) = rw (b, h, e) refl
