-- ===== src/Prelude/Text/Laws.antt =====
-- What the tests on texts decide.
use mathlib.Core.List.{List, [], ◌∷◌, ◌++◌, reverse, reverse-append, reverse-reverse}
use mathlib.Core.Path.{◌≡◌, refl, sym, ap, ◌∙◌, subst}
use mathlib.Core.Option.{some}
use mathlib.Core.Bool.{true, false}
use mathlib.Core.Logic.{◌≢◌}
use native.Mathlib.Omega.{arith}
use Prim.Native.Nat.{ℕ}
use axoloty_embedded.Prelude.Lists.{All, In, any, any-true_some}
use axoloty_embedded.Prelude.Text.{codes_eq, after_prefix, starts_with, ends_with, contains_text}
use axoloty_embedded.Prelude.{Option-cases, inl, inr}
use text.Mathlib.Text.{◌==◌ as str_eq}
use text.Mathlib.TextEquality.{eq_iff as str_eq_iff}
use Prim.Native.String.{String}

-- A text that equals one of a list stands in it.
pub In-any : (s : String) (ss : List String) → any (str_eq s) ss ≡ true → In s ss
In-any s ss h =
    let (t, m, e) = any-true_some (str_eq s) ss h in
    subst (λ r. In r ss) (sym ((str_eq_iff s t).0 e)) m

pub codes_eq-true : (xs ys : List ℕ) → codes_eq xs ys ≡ true → xs ≡ ys
unfolding codes_eq
codes_eq-true [] [] h = refl
codes_eq-true [] (y ∷ ys) h = cc
codes_eq-true (x ∷ xs) [] h = cc
codes_eq-true (x ∷ xs) (y ∷ ys) h = ground (arith, codes_eq-true xs ys)

pub after_prefix-eq :
    (prefix xs rest : List ℕ) → after_prefix prefix xs ≡ some rest → xs ≡ prefix ++ rest
unfolding after_prefix
after_prefix-eq [] xs rest h = ground arith
after_prefix-eq (p ∷ prefix) [] rest h = cc
after_prefix-eq (p ∷ prefix) (x ∷ xs) rest h = ground (arith, after_prefix-eq prefix xs rest)

pub starts_with-true :
    (prefix xs : List ℕ) → starts_with prefix xs ≡ true → (rest : List ℕ) × (xs ≡ prefix ++ rest)
unfolding starts_with
starts_with-true prefix xs h = elim (Option-cases (after_prefix prefix xs)) [
  | inl e ↦ absurd (ground arith)
  | inr (rest, e) ↦ (rest, after_prefix-eq prefix xs rest e)
]

pub ends_with-true :
    (suffix xs : List ℕ) → ends_with suffix xs ≡ true → (stem : List ℕ) × (xs ≡ stem ++ suffix)
unfolding ends_with
ends_with-true suffix xs h =
    let (rest, e) = starts_with-true (reverse suffix) (reverse xs) h in
    (
      reverse rest,
      sym (reverse-reverse xs)
          ∙ ap reverse e
          ∙ reverse-append (reverse suffix) rest
          ∙ rw reverse-reverse,
    )

pub contains_text-single :
    (c : ℕ) (xs : List ℕ) → contains_text (c ∷ []) xs ≡ false → All (λ x. x ≢ c) xs
unfolding contains_text
contains_text-single c [] h = tt
contains_text-single c (x ∷ xs) h = ground (arith, contains_text-single c xs)
