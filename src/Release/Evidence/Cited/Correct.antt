-- ===== src/Release/Evidence/Cited/Correct.antt =====
-- What it means that no problem is found with the cited evidence.
use axoloty_embedded.Prelude.{
  ◌≡◌, Bool, false, List, [], ◌∷◌, All, inl, inr, ◌⊎◌, Bool-cases, ap, ◌∙◌, In, any-true_some,
  any-true_at,
}
use axoloty_embedded.Outcome.{Outcome, ok, raised, >>=-eq-ok, ok-eq, type_error}
use axoloty_embedded.Release.Tree.{in_set, Problems, append-eq-nil, problem_if-eq-nil, in_set-eq}
use axoloty_embedded.Release.Evidence.Cited.{
  uncited_problems, each_uncited, cited_evidence_problems, each_cited, is_cited, uncited_other,
  objects, required_of, required_names,
}
use axoloty_embedded.Json.{
  Fields, is_hashable, Json, py_eq, get_or_null, one_of, str, arr, elements, null, bool, int, float,
  obj,
}
use mathlib.Core.Path.{subst}
use axoloty_embedded.Release.Evidence.Cited.Citations.{Cites, SamePath, each_cited-Cites}

abbrev failed_problems : Outcome Problems
failed_problems =
    ok ("evidence %s is a failed record of this profile and the manifest does not cite it" ∷ [])

-- The checks that the list of required checks names, by its objects.
abbrev pub required_items : Json → List Fields
required_items (arr xs) = objects (elements xs)
required_items _ = []

-- A record is cited by its path, or it did not fail and its check is none of the required ones.
abbrev pub IsCovered : List Fields → Json → Fields → Type 0
IsCovered cited required_checks record_fields =
    ((entry : Fields) × In entry cited × SamePath record_fields entry)
    ⊎ ((py_eq (get_or_null "status" record_fields) (str "failed") ≡ false)
        × ((item : Fields)
            → In item (required_items required_checks)
            → py_eq (get_or_null "check" record_fields) (get_or_null "check" item) ≡ false))

required_names-In :
    (items : List Fields) (names : List Json) (item : Fields)
    → required_names items ≡ ok names
    → In item items
    → In (get_or_null "check" item) names
unfolding required_names
required_names-In [] names item h m = absurd m
required_names-In (i ∷ items) names item h m =
    let (rest, e, k) = >>=-eq-ok (required_names items) _ h in
    elim (Bool-cases (is_hashable (get_or_null "check" i))) [
      | inl f ↦
          let q : get_or_null "check" i ∷ rest ≡ names = ok-eq (rw f at k) in
          subst (λ ns. In (get_or_null "check" item) ns) q
            (placed rest (required_names-In items rest item e) m)
      | inr f ↦ absurd (never (rw f at k))
    ]
  where
    never : ◌≡◌ {A = Outcome (List Json)} (raised type_error) (ok names) → ⊥
    never q = cc

    placed :
        (rest : List Json)
        → (In item items → In (get_or_null "check" item) rest)
        → In item (i ∷ items)
        → In (get_or_null "check" item) (get_or_null "check" i ∷ rest)
    placed rest e (inl p) = inl (ap (λ fs. get_or_null "check" fs) p)
    placed rest e (inr n) = inr (e n)

required_of-In :
    (required_checks : Json) (names : List Json) (item : Fields)
    → required_of required_checks ≡ ok names
    → In item (required_items required_checks)
    → In (get_or_null "check" item) names
required_of-In (arr xs) names item h m = required_names-In (objects (elements xs)) names item h m
required_of-In null names item h m = absurd m
required_of-In (bool b) names item h m = absurd m
required_of-In (int n) names item h m = absurd m
required_of-In (float b) names item h m = absurd m
required_of-In (str s) names item h m = absurd m
required_of-In (obj fs) names item h m = absurd m

one_of-false : (v w : Json) (vs : List Json) → one_of v vs ≡ false → In w vs → py_eq v w ≡ false
unfolding one_of
one_of-false v w vs h m = elim (Bool-cases (py_eq v w)) [
  | inl e ↦ let some_one = any-true_at (py_eq v) vs w m e in absurd (cc)
  | inr e ↦ e
]

module _ (cited : List Fields) (required_checks : Json) (required : List Json)
    (named : required_of required_checks ≡ ok required) where
  uncited_problems-IsCovered :
      (record_fields : Fields)
      → uncited_problems cited required record_fields ≡ ok []
      → IsCovered cited required_checks record_fields
  unfolding uncited_problems is_cited
  uncited_problems-IsCovered r h = elim (Bool-cases (is_cited cited r)) [
    | inl e ↦ inl (any-true_some _ cited e)
    | inr e ↦ elim (Bool-cases (py_eq (get_or_null "status" r) (str "failed"))) [
      | inl f ↦ absurd (never (rw f at (rw e at h)))
      | inr f ↦ inr (
        f,
        λ item m.
            one_of-false (get_or_null "check" r) (get_or_null "check" item) required
              (unneeded (rw f at (rw e at h)))
              (required_of-In required_checks required item named m),
      )
    ]
  ]
    where
      never : failed_problems ≡ ok [] → ⊥
      never q = cc

      unneeded : uncited_other required r ≡ ok [] → one_of (get_or_null "check" r) required ≡ false
      unneeded k =
          let (needed, p, l) = >>=-eq-ok (in_set (get_or_null "check" r) required) _ k in
          in_set-eq (get_or_null "check" r) required p ∙ problem_if-eq-nil needed _ (ok-eq l)

  each_uncited-IsCovered :
      (records : List Fields)
      → each_uncited cited required records ≡ ok []
      → All (IsCovered cited required_checks) records
  unfolding each_uncited
  each_uncited-IsCovered [] h = tt
  each_uncited-IsCovered (r ∷ rest) h =
      let (first, p, k) = >>=-eq-ok (uncited_problems cited required r) _ h in
      let (others, q, l) = >>=-eq-ok (each_uncited cited required rest) _ k in
      let (a, b) = append-eq-nil first others (ok-eq l) in
      (
        uncited_problems-IsCovered r (p ∙ ap (λ ps. ok ps) a),
        each_uncited-IsCovered rest (q ∙ ap (λ ps. ok ps) b),
      )

-- If `cited_evidence_problems` returns without a problem, then each cited object has the path of a
-- record of the profile and the record's check, tier, status, core revision, image checksum, device
-- and reason, and its firmware revision where that is compared; and each record of the profile is
-- cited by its path, or it did not fail and its check is none of the required checks.
pub cited_evidence_problems-IsCovered :
    (cited : List Json) (discovered : List Fields) (required_checks : Json)
    (compare_revision : Bool)
    → cited_evidence_problems cited discovered required_checks compare_revision ≡ ok []
    → All (Cites compare_revision discovered) (objects cited)
      × All (IsCovered (objects cited) required_checks) discovered
unfolding cited_evidence_problems
cited_evidence_problems-IsCovered cited discovered required_checks compare_revision h =
    let (wrong, p, k) = >>=-eq-ok (each_cited compare_revision discovered (objects cited)) _ h in
    let (required, q, l) = >>=-eq-ok (required_of required_checks) _ k in
    let (uncited, r, m) = >>=-eq-ok (each_uncited (objects cited) required discovered) _ l in
    let (a, b) = append-eq-nil wrong uncited (ok-eq m) in
    (
      each_cited-Cites compare_revision discovered (objects cited) (p ∙ ap (λ ps. ok ps) a),
      each_uncited-IsCovered (objects cited) required_checks required q discovered
          (r ∙ ap (λ ps. ok ps) b),
    )
