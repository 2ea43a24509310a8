-- ===== src/Interval/Worklist/Sets.antt =====
-- `==` of value sets decides that two sets hold the same values.
use axoloty_embedded.Prelude.{
  ◌≡◌, refl, true, none, some, List, [], ◌∷◌, &&_both, both_&&, Bool-cases, inl, inr, arith,
}
use axoloty_embedded.Prelude.Int.{ℤ, eq_ℤ, eq_ℤ_iff}
use axoloty_embedded.Interval.{Values, holds, within, same_values}
use axoloty_embedded.Interval.Sound.{May}
use axoloty_embedded.Interval.Registers.{holds-In, In-holds}

within-holds :
    (xs ys : List ℤ) (v : ℤ) → within xs ys ≡ true → holds v xs ≡ true → holds v ys ≡ true
within-holds [] ys v h m = absurd (cc)
within-holds (x ∷ xs) ys v h m =
    let (here, rest) = &&_both (holds x ys) (within xs ys) h in
    elim (Bool-cases (eq_ℤ v x)) [
      | inl e ↦ rw ((eq_ℤ_iff v x).0 e) here
      | inr e ↦ within-holds xs ys v rest (ground arith)
    ]

holds-within :
    (xs ys : List ℤ) → ((v : ℤ) → holds v xs ≡ true → holds v ys ≡ true) → within xs ys ≡ true
holds-within [] ys f = refl
holds-within (x ∷ xs) ys f =
    both_&& (holds x ys) (within xs ys) (f x (In-holds x (x ∷ xs) (inl refl)))
      (holds-within xs ys (λ v h. f v (In-holds v (x ∷ xs) (inr (holds-In v xs h)))))

pub same_values-May : (a b : Values) (v : ℤ) → same_values a b ≡ true → May v a → May v b
unfolding same_values
same_values-May none none v h m = tt
same_values-May none (some ys) v h m = absurd (cc)
same_values-May (some xs) none v h m = tt
same_values-May (some xs) (some ys) v h m =
    within-holds xs ys v (&&_both (within xs ys) (within ys xs) h).0 m

pub same_values_refl : (a : Values) → same_values a a ≡ true
unfolding same_values
same_values_refl none = refl
same_values_refl (some xs) =
    both_&& (within xs xs) (within xs xs) (holds-within xs xs (λ v h. h))
      (holds-within xs xs (λ v h. h))

pub same_values_sym : (a b : Values) → same_values a b ≡ true → same_values b a ≡ true
unfolding same_values
same_values_sym none none h = refl
same_values_sym none (some ys) h = absurd (cc)
same_values_sym (some xs) none h = absurd (cc)
same_values_sym (some xs) (some ys) h =
    let (p, q) = &&_both (within xs ys) (within ys xs) h in
    both_&& (within ys xs) (within xs ys) q p

pub same_values_trans :
    (a b c : Values) → same_values a b ≡ true → same_values b c ≡ true → same_values a c ≡ true
unfolding same_values
same_values_trans none none none h k = refl
same_values_trans none none (some zs) h k = absurd (cc)
same_values_trans none (some ys) c h k = absurd (cc)
same_values_trans (some xs) none c h k = absurd (cc)
same_values_trans (some xs) (some ys) none h k = absurd (cc)
same_values_trans (some xs) (some ys) (some zs) h k =
    let (p, q) = &&_both (within xs ys) (within ys xs) h in
    let (r, s) = &&_both (within ys zs) (within zs ys) k in
    both_&& (within xs zs) (within zs xs)
      (holds-within xs zs (λ v m. within-holds ys zs v r (within-holds xs ys v p m)))
      (holds-within zs xs (λ v m. within-holds ys xs v q (within-holds zs ys v s m)))
