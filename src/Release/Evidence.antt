-- ===== src/Release/Evidence.antt =====
-- The evidence records in Tools/validate-release-manifest.py: `validate_evidence`,
-- `discover_evidence` and `cited_evidence_problems`.
pub mod Cited
use axoloty_embedded.Prelude.{
  ℕ, ◌≡◌, Bool, true, false, not, ◌&&◌, ◌||◌, String, str_eq, Option, none, some, List, [], ◌∷◌,
  ◌++◌, if◌then◌else◌, leb, ltb, ◌==◌, select, any, length, string_append,
}
use axoloty_embedded.Outcome.{Outcome, ok, raised, ◌>>=◌, attribute_error}
use axoloty_embedded.Json.{
  Fields, Json, str, py_eq, obj, one_of, get_or_null, truth, null, field, int, end,
}
use axoloty_embedded.Release.Tree.{Tree, Problems, Text, in_set, problem_if, load, join, shown_at}
use axoloty_embedded.Prelude.Text.{ends_with, codes, codes_eq, is_hex}
use axoloty_embedded.Prelude.Int.{pos}

abbrev executed : List Json
executed = str "passed" ∷ str "failed" ∷ []

-- The fields that an executed record of the tier must name.
required_fields : Json → List String
required_fields tier =
    if py_eq tier (str "component")
    then "component" ∷ "artifactSHA256" ∷ "coreRevision" ∷ "result" ∷ "toolchain" ∷ []
    else if py_eq tier (str "build")
    then "firmwareSHA256" ∷ "coreRevision" ∷ "result" ∷ "toolchain" ∷ []
    else "firmwareSHA256" ∷ "coreRevision" ∷ "result" ∷ "device" ∷ "protocol" ∷ []

pub missing_fields : String → List String → Fields → Problems
missing_fields message [] record_fields = []
missing_fields message (name ∷ names) record_fields =
    problem_if (not (truth (get_or_null name record_fields))) message
    ++ missing_fields message names record_fields

-- `if value and not HEX.fullmatch(value)`
abbrev bad_hex : ℕ → Text → Bool
bad_hex n value = not (codes_eq value []) && not (is_hex n value)

executed_problems : Tree → Json → Fields → Problems
unfolding required_fields missing_fields
executed_problems tree tier fs =
    missing_fields "%s: an executed %s record must name %s" (required_fields tier) fs
    ++ problem_if (bad_hex 64 (shown_at tree "firmwareSHA256" fs))
        "%s: firmwareSHA256 must be 64 lowercase hexadecimal characters"
    ++ problem_if (bad_hex 64 (shown_at tree "artifactSHA256" fs))
        "%s: artifactSHA256 must be 64 lowercase hexadecimal characters"
    ++ problem_if (bad_hex 40 (shown_at tree "coreRevision" fs))
        "%s: coreRevision must be a full commit SHA"
    ++ problem_if (bad_hex 40 (shown_at tree "firmwareRevision" fs))
        "%s: firmwareRevision must be a full commit SHA"

pub status_problems : Tree → Json → Json → Fields → Problems
unfolding executed_problems
status_problems tree status tier fs =
    if one_of status executed
    then executed_problems tree tier fs
    else problem_if (py_eq status (str "unexecuted") && not (truth (get_or_null "reason" fs)))
        "%s: an unexecuted record must state a reason"

unfoldable pub record_problems : Tree → Fields → Outcome Problems
unfolding missing_fields status_problems
record_problems tree fs = do
  let status = get_or_null "status" fs
  let tier = get_or_null "tier" fs
  known ← in_set status (str "passed" ∷ str "failed" ∷ str "unexecuted" ∷ [])
  known_tier ← in_set tier (str "build" ∷ str "component" ∷ str "device" ∷ null ∷ [])
  ok (
      problem_if (not (py_eq (get_or_null "schemaVersion" fs) (int (pos 1))))
        "%s: schemaVersion must be 1"
      ++ problem_if (not known) "%s: status must be one of %s"
      ++ missing_fields "%s: %s is required" ("profile" ∷ "check" ∷ "recordedAt" ∷ []) fs
      ++ problem_if (not known_tier)
          "%s: tier must be build, component, or device when present, found %r"
      ++ status_problems tree status tier fs)

-- A record that is no object has no `get`.
unfoldable pub validate_evidence : Tree → Json → Outcome Problems
validate_evidence tree (obj fs) = record_problems tree fs
validate_evidence tree _ = raised attribute_error

-- The record in the shape that a manifest cites.
unfoldable pub cited_shape : String → Fields → Outcome Fields
cited_shape path fs = do
  ran ← in_set (get_or_null "status" fs) executed
  let tail =
      if ran
      then field "coreRevision" (get_or_null "coreRevision" fs) (
          field "firmwareSHA256" (get_or_null "firmwareSHA256" fs) (
            field "firmwareRevision" (get_or_null "firmwareRevision" fs)
              (field "device" (get_or_null "device" fs) end)))
      else field "reason" (get_or_null "reason" fs) end
  ok (
      field "path" (str path) (
        field "check" (get_or_null "check" fs)
          (field "tier" (get_or_null "tier" fs) (field "status" (get_or_null "status" fs) tail))))

abbrev of_profile : Json → Json → Bool
of_profile profile_name (obj fs) = py_eq (get_or_null "profile" fs) profile_name
of_profile profile_name _ = false

abbrev keep_entry : String → Json → Json → Outcome (List Fields)
keep_entry path profile_name (obj fs) =
    if of_profile profile_name (obj fs)
    then (do entry ← cited_shape path fs; ok (entry ∷ []))
    else ok []
keep_entry path profile_name _ = ok []

pub evidence_names_of : List String → List String
evidence_names_of names = select (λ name. ends_with (codes ".json") (codes name)) names

unfoldable pub each_name : Tree → Text → Json → List String → Outcome (List Fields)
each_name tree dir profile_name [] = ok []
each_name tree dir profile_name (name ∷ names) = do
  document ← load tree (join dir (codes name))
  own ← keep_entry (string_append "docs/evidence/" name) profile_name document
  rest ← each_name tree dir profile_name names
  ok (own ++ rest)

unfoldable pub discover_evidence : Tree → Text → Json → Outcome (List Fields)
unfolding evidence_names_of
discover_evidence tree repo_root profile_name =
    let dir = join (join repo_root (codes "docs")) (codes "evidence") in
    if tree.is_dir dir
    then each_name tree dir profile_name (evidence_names_of tree.evidence_names)
    else ok []
