-- ===== src/Release/Evidence/Cited/Citations.antt =====
-- What it means that the citations of a manifest agree with the records.
use axoloty_embedded.Prelude.{
  ◌≡◌, refl, Bool, true, false, not, ◌&&◌, String, Option, none, some, List, [], ◌∷◌, All, inl, inr,
  ◌⊎◌, Bool-cases, ap, ◌∙◌, arith, In, Option-cases, sym,
}
use axoloty_embedded.Outcome.{Outcome, ok, raised, >>=-eq-ok, ok-eq, type_error}
use axoloty_embedded.Release.Tree.{Problems, append-eq-nil, problem_if-eq-nil}
use axoloty_embedded.Release.Evidence.Cited.{
  field_problems, cited_problems, each_cited, is_skipped, actual_get, compared_fields, against,
}
use axoloty_embedded.Json.{Fields, is_hashable, Json, py_eq, get_or_null}
use mathlib.Core.Path.{subst}

abbrev raised_problems : Outcome Problems
raised_problems = raised type_error

same_value : (a b : Bool) → (not a && not b) ≡ false → (a ≡ true) ⊎ (b ≡ true)
same_value a b h = ground arith

-- A field that the problems pass: it is skipped, or equal.
abbrev Agrees : Bool → Fields → Fields → String → Type 0
Agrees compare_revision entry record_fields name =
    (is_skipped compare_revision name ≡ true)
    ⊎ (py_eq (get_or_null name entry) (get_or_null name record_fields) ≡ true)

field_problems-Agrees :
    (compare_revision : Bool) (entry record_fields : Fields) (names : List String)
    → field_problems compare_revision entry record_fields names ≡ []
    → All (Agrees compare_revision entry record_fields) names
unfolding field_problems
field_problems-Agrees compare_revision entry record_fields [] h = tt
field_problems-Agrees compare_revision entry record_fields (name ∷ names) h =
    let (first, rest) = append-eq-nil _ _ h in
    (
      same_value (is_skipped compare_revision name)
          (py_eq (get_or_null name entry) (get_or_null name record_fields))
          (problem_if-eq-nil _ _ first),
      field_problems-Agrees compare_revision entry record_fields names rest,
    )

-- The value of a field of a citation is the one that the record has.
abbrev pub Says : Fields → Fields → String → Type 0
Says entry record_fields name =
    py_eq (get_or_null name entry) (get_or_null name record_fields) ≡ true

abbrev pub SamePath : Fields → Fields → Type 0
SamePath entry record_fields =
    py_eq (get_or_null "path" record_fields) (get_or_null "path" entry) ≡ true

-- A cited entry has the path of a record of docs/evidence, and says what the record says.
pub record Cites (compare_revision : Bool) (discovered : List Fields) (entry : Fields)
    : Type 0 where
  pub record_fields : Fields
  pub listed : In record_fields discovered
  pub same_path : SamePath entry record_fields
  pub agrees :
      All
        (Says entry record_fields)
        ("check" ∷ "tier" ∷ "status" ∷ "coreRevision" ∷ "firmwareSHA256" ∷ "device" ∷ "reason" ∷ [])
  pub revision : compare_revision ≡ true → Says entry record_fields "firmwareRevision"

actual_get-In :
    (path : Json) (discovered : List Fields) (r : Fields)
    → actual_get path discovered ≡ some r
    → In r discovered × (py_eq (get_or_null "path" r) path ≡ true)
unfolding actual_get
actual_get-In path [] r h = absurd (cc)
actual_get-In path (entry ∷ rest) r h = elim (Option-cases (actual_get path rest)) [
  | inl e ↦ elim (Bool-cases (py_eq (get_or_null "path" entry) path)) [
    | inl f ↦
        let q : entry ≡ r = some_fields (rw f at (rw (e, actual_get) at h)) in
        (inl (sym q), subst (λ fs. py_eq (get_or_null "path" fs) path ≡ true) q f)
    | inr f ↦ absurd (no_fields (rw f at (rw (e, actual_get) at h)))
  ]
  | inr (found, e) ↦
      let q : found ≡ r = some_fields (rw (e, actual_get) at h) in
      let (m, s) = actual_get-In path rest r (e ∙ ap (λ fs. some fs) q) in (inr m, s)
]
  where
    some_fields : {a b : Fields} → some a ≡ some b → a ≡ b
    some_fields k = cc

    no_fields : none ≡ some r → ⊥
    no_fields k = cc

said :
    (compare_revision : Bool) (entry r : Fields) (name : String)
    → is_skipped compare_revision name ≡ false
    → Agrees compare_revision entry r name
    → Says entry r name
said compare_revision entry r name n (inl e) = absurd (cc)
said compare_revision entry r name n (inr e) = e

Agrees-Says :
    (compare_revision : Bool) (entry r : Fields)
    → All (Agrees compare_revision entry r) compared_fields
    → All
        (Says entry r)
        ("check" ∷ "tier" ∷ "status" ∷ "coreRevision" ∷ "firmwareSHA256" ∷ "device" ∷ "reason" ∷ [])
      × (compare_revision ≡ true → Says entry r "firmwareRevision")
Agrees-Says c entry r
      (check, (tier, (status, (core, (image, (firmware, (device, (reason, rest)))))))) =
    (
      (
        said c entry r "check" refl check,
        (
          said c entry r "tier" refl tier,
          (
            said c entry r "status" refl status,
            (
              said c entry r "coreRevision" refl core,
              (
                said c entry r "firmwareSHA256" refl image,
                (said c entry r "device" refl device, (said c entry r "reason" refl reason, tt)),
              ),
            ),
          ),
        ),
      ),
      λ e. said c entry r "firmwareRevision" (rw e refl) firmware,
    )

against-Cites :
    (compare_revision : Bool) (discovered : List Fields) (entry : Fields) (o : Option Fields)
    → actual_get (get_or_null "path" entry) discovered ≡ o
    → against compare_revision entry o ≡ []
    → Cites compare_revision discovered entry
against-Cites compare_revision discovered entry none e h = absurd (cc)
against-Cites compare_revision discovered entry (some r) e h =
    let (m, s) = actual_get-In (get_or_null "path" entry) discovered r e in
    let (says, revision) =
      Agrees-Says compare_revision entry r
        (field_problems-Agrees compare_revision entry r compared_fields h) in
    record { record_fields = r; listed = m; same_path = s; agrees = says; revision = revision }

cited_problems-Cites :
    (compare_revision : Bool) (discovered : List Fields) (entry : Fields)
    → cited_problems compare_revision discovered entry ≡ ok []
    → Cites compare_revision discovered entry
unfolding cited_problems
cited_problems-Cites compare_revision discovered entry h =
    elim (Bool-cases (is_hashable (get_or_null "path" entry))) [
      | inl e ↦ against-Cites compare_revision discovered entry _ refl (ok-eq (rw e at h))
      | inr e ↦ absurd (never (rw e at h))
    ]
  where
    never : raised_problems ≡ ok [] → ⊥
    never q = cc

pub each_cited-Cites :
    (compare_revision : Bool) (discovered entries : List Fields)
    → each_cited compare_revision discovered entries ≡ ok []
    → All (Cites compare_revision discovered) entries
unfolding each_cited
each_cited-Cites compare_revision discovered [] h = tt
each_cited-Cites compare_revision discovered (entry ∷ rest) h =
    let (first, p, k) = >>=-eq-ok (cited_problems compare_revision discovered entry) _ h in
    let (others, q, l) = >>=-eq-ok (each_cited compare_revision discovered rest) _ k in
    let (a, b) = append-eq-nil first others (ok-eq l) in
    (
      cited_problems-Cites compare_revision discovered entry (p ∙ ap (λ ps. ok ps) a),
      each_cited-Cites compare_revision discovered rest (q ∙ ap (λ ps. ok ps) b),
    )
