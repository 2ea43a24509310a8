-- ===== src/Release/Evidence/Cited.antt =====
-- `cited_evidence_problems` of Tools/validate-release-manifest.py: what a manifest cites, compared
-- with the records of docs/evidence.
pub mod Citations
pub mod Correct
use axoloty_embedded.Prelude.{
  ℕ, ◌≡◌, refl, Bool, true, false, not, ◌&&◌, String, str_eq, Option, none, some, List, [], ◌∷◌,
  ◌++◌, if◌then◌else◌, any, All, In, inl, inr, ◌⊎◌, Bool-cases, Option-cases, ap, ◌∙◌, arith,
}
use axoloty_embedded.Outcome.{Outcome, ok, raised, ◌>>=◌, >>=-eq-ok, ok-eq, type_error}
use axoloty_embedded.Json.{Fields, Json, py_eq, is_hashable, arr, get_or_null, str, elements}
use axoloty_embedded.Release.Tree.{problem_if, Problems, objects, in_set}

abbrev at_path : Json → Fields → Bool
at_path path record_fields = py_eq (get_or_null "path" record_fields) path

-- `actual.get(path)`: a later record of the same path replaces an earlier one.
unfoldable pub actual_get : Json → List Fields → Option Fields
actual_get path [] = none
actual_get path (entry ∷ rest) = elim (actual_get path rest) [
  | some found ↦ some found
  | none ↦ if at_path path entry then some entry else none
]

abbrev pub compared_fields : List String
compared_fields =
    "check" ∷ "tier" ∷ "status" ∷ "coreRevision" ∷ "firmwareSHA256" ∷ "firmwareRevision" ∷ "device"
    ∷ "reason" ∷ []

-- `field == "firmwareRevision" and not compare_revision`
abbrev pub is_skipped : Bool → String → Bool
is_skipped compare_revision name = str_eq name "firmwareRevision" && not compare_revision

abbrev pub differs : Bool → Fields → Fields → String → Bool
differs compare_revision entry record_fields name =
    not (is_skipped compare_revision name)
    && not (py_eq (get_or_null name entry) (get_or_null name record_fields))

unfoldable pub field_problems : Bool → Fields → Fields → List String → Problems
field_problems compare_revision entry record_fields [] = []
field_problems compare_revision entry record_fields (name ∷ names) =
    problem_if (differs compare_revision entry record_fields name)
      "evidence %s cites %s %r, but the record says %r"
    ++ field_problems compare_revision entry record_fields names

abbrev pub against : Bool → Fields → Option Fields → Problems
against compare_revision entry none =
    "evidence %r is not a record of this profile in docs/evidence" ∷ []
against compare_revision entry (some record_fields) =
    field_problems compare_revision entry record_fields compared_fields

-- One cited entry; `cited_paths.add(path)` hashes the path.
unfoldable pub cited_problems : Bool → List Fields → Fields → Outcome Problems
cited_problems compare_revision discovered entry =
    let path = get_or_null "path" entry in
    if is_hashable path
    then ok (against compare_revision entry (actual_get path discovered))
    else raised type_error

unfoldable pub each_cited : Bool → List Fields → List Fields → Outcome Problems
each_cited compare_revision discovered [] = ok []
each_cited compare_revision discovered (entry ∷ rest) = do
  first ← cited_problems compare_revision discovered entry
  others ← each_cited compare_revision discovered rest
  ok (first ++ others)

-- `{item.get("check") for item in required_checks if isinstance(item, dict)}`
unfoldable pub required_names : List Fields → Outcome (List Json)
required_names [] = ok []
required_names (item ∷ items) = do
  rest ← required_names items
  if is_hashable (get_or_null "check" item)
      then ok (get_or_null "check" item ∷ rest)
      else raised type_error

abbrev pub required_of : Json → Outcome (List Json)
required_of (arr xs) = required_names (objects (elements xs))
required_of _ = ok []

unfoldable pub is_cited : List Fields → Fields → Bool
is_cited cited record_fields = any (λ entry. at_path (get_or_null "path" record_fields) entry) cited

abbrev pub uncited_other : List Json → Fields → Outcome Problems
uncited_other required record_fields = do
  needed ← in_set (get_or_null "check" record_fields) required
  ok (
      problem_if needed
        "evidence %s is a record of required check %s and the manifest does not cite it")

unfoldable pub uncited_problems : List Fields → List Json → Fields → Outcome Problems
uncited_problems cited required record_fields =
    if is_cited cited record_fields
    then ok []
    else if py_eq (get_or_null "status" record_fields) (str "failed")
    then ok
        ("evidence %s is a failed record of this profile and the manifest does not cite it" ∷ [])
    else uncited_other required record_fields

unfoldable pub each_uncited : List Fields → List Json → List Fields → Outcome Problems
each_uncited cited required [] = ok []
each_uncited cited required (record_fields ∷ rest) = do
  first ← uncited_problems cited required record_fields
  others ← each_uncited cited required rest
  ok (first ++ others)

unfoldable pub cited_evidence_problems : List Json → List Fields → Json → Bool → Outcome Problems
cited_evidence_problems cited discovered required_checks compare_revision = do
  wrong ← each_cited compare_revision discovered (objects cited)
  required ← required_of required_checks
  uncited ← each_uncited (objects cited) required discovered
  ok (wrong ++ uncited)
