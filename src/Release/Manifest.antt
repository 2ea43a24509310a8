-- ===== src/Release/Manifest.antt =====
-- `validate` and `main` of Tools/validate-release-manifest.py. The paths of the repository and of the
-- manifest are absolute already.
mod Carried
pub mod Correct
use axoloty_embedded.Prelude.{
  ℕ, ◌≡◌, refl, Bool, true, false, not, ◌&&◌, ◌||◌, ◌+◌, String, Option, none, some, List, [], ◌∷◌,
  ◌++◌, if◌then◌else◌, any, ◌==◌, map,
}
use axoloty_embedded.Prelude.Text.{codes, codes_eq}
use axoloty_embedded.Outcome.{Outcome, ok, raised, ◌>>=◌, key_error, attribute_error}
use axoloty_embedded.Release.Tree.{
  Problems, Tree, Text, shown, problem_if, is_nonempty_string, in_set, load, field_of, gather,
}
use axoloty_embedded.Json.{
  Json, Fields, obj, get_or_null, py_eq, is_null, as_array, arr, has_key, str, one_of, truth, null,
  int,
}
use axoloty_embedded.Release.Identity.{
  or_empty_object, embedded_of, axoloty_sha, image_sha, unless_object, schema_problems,
  profile_problems, transport_problems, lock_core, embedded_problems, axoloty_problems,
  build_problems, Profile,
}
use axoloty_embedded.Release.Required.{Build, is_text, required_check_problems}
use axoloty_embedded.Release.Evidence.{validate_evidence, discover_evidence}
use axoloty_embedded.Release.Evidence.Cited.{cited_evidence_problems}
use axoloty_embedded.Release.Paths.{absolute_parts, Revocation, is_within, load_revocation, slashed}
use axoloty_embedded.Release.Fields.{keys_are, is_true}
use axoloty_embedded.Prelude.Int.{pos}
use axoloty_embedded.Release.SizeReport.{validate_size_report}

-- `"%s/%s" % (profile_name, embedded.get("version"))`
pub release_key : Tree → Fields → Text
release_key tree manifest =
    shown tree (get_or_null "profile" manifest)
    ++ (b'/' ∷ shown tree (get_or_null "version" (embedded_of manifest)))

abbrev size_report_grandfathered : List String
size_report_grandfathered =
    "esp32c6-mqtt/0.8.2-embedded.2" ∷ "esp32c6-mqtt/0.10.0-embedded.2"
    ∷ "esp32c6-zenoh/0.10.0-embedded.1" ∷ "esp32c6-zenoh/0.10.0-embedded.2" ∷ []

-- `FIRMWARE_REVISION_GRANDFATHERED.get(key)`
pub grandfathered_revision : Text → Json
grandfathered_revision key =
    if codes_eq key (codes "esp32c6-mqtt/0.10.0-embedded.2")
    then str "0b4bc08406f25b1a4cb61423cc955a2690c54a1c"
    else if codes_eq key (codes "esp32c6-zenoh/0.10.0-embedded.2")
    then str "e6543e140b226001765c925de4e566c3e29cb5e0"
    else null

abbrev declares_build : Json → Bool
declares_build (obj profile) = has_build (get_or_null "budgets" profile)
  where
    has_build : Json → Bool
    has_build (obj budgets) = has_key "build" budgets
    has_build _ = false
declares_build _ = false

unfoldable pub resource_problems : Tree → Fields → Json → Problems
unfolding release_key
resource_problems tree manifest profile = elim (get_or_null "resources" manifest) [
  | null ↦
      problem_if
        (declares_build profile
          && not (
              any (λ key. codes_eq (release_key tree manifest) (codes key))
                size_report_grandfathered))
        "resources is null but profile %s declares budgets.build; a release must carry a size report"
  | obj resources ↦
      if keys_are ("available" ∷ "report" ∷ []) resources
        && is_true (get_or_null "available" resources)
      then validate_size_report (get_or_null "report" resources) manifest profile
      else "resources must be null or {available: true, report: {...}}" ∷ []
  | _ ↦ "resources must be null or {available: true, report: {...}}" ∷ []
]

-- A cited entry, as far as it counts towards `matching`, with the problems of its record.
abbrev pub Match : Type 0
Match = Bool × Problems

pub carries : Tree → Fields → Fields → Bool
carries tree manifest entry =
    py_eq (get_or_null "status" entry) (str "passed")
    && is_text (axoloty_sha tree manifest) (get_or_null "coreRevision" entry)
    && is_text (image_sha tree manifest) (get_or_null "firmwareSHA256" entry)

pub record_match : Tree → Fields → Fields → Json → Outcome Match
unfolding carries
record_match tree manifest entry document = do
  problems ← validate_evidence tree document
  ok (
    carries tree manifest entry && one_of (field_of "tier" document) (str "device" ∷ null ∷ []),
    problems,
  )

pub path_match : Tree → Text → Fields → Fields → Text → Outcome Match
unfolding record_match
path_match tree repo_root manifest entry path =
    let candidate = absolute_parts repo_root path in
    if not (is_within candidate (absolute_parts repo_root (codes "docs/evidence")))
    then ok (false, "evidence path %r is outside docs/evidence" ∷ [])
    else if not (tree.is_file (slashed candidate))
    then ok (false, "evidence path %r does not exist" ∷ [])
    else (load tree (slashed candidate) >>= record_match tree manifest entry)

pub entry_match : Tree → Text → Fields → Json → Outcome Match
unfolding path_match
entry_match tree repo_root manifest (obj entry) = elim (get_or_null "path" entry) [
  | str path ↦
      if is_nonempty_string (str path)
      then path_match tree repo_root manifest entry (codes path)
      else ok (false, "each qualification.evidence entry must name a path" ∷ [])
  | _ ↦ ok (false, "each qualification.evidence entry must name a path" ∷ [])
]
entry_match tree repo_root manifest _ =
    ok (false, "each qualification.evidence entry must name a path" ∷ [])

-- Whether any entry matches, which is what `matching` is read for.
unfoldable pub evidence_matches : Tree → Text → Fields → List Json → Outcome Match
unfolding entry_match
evidence_matches tree repo_root manifest [] = ok (false, [])
evidence_matches tree repo_root manifest (entry ∷ entries) = do
  first ← entry_match tree repo_root manifest entry
  rest ← evidence_matches tree repo_root manifest entries
  ok (first.0 || rest.0, first.1 ++ rest.1)

-- `(profile.get("qualification") or {}).get("requiredChecks") if isinstance(profile, dict) else None`
checks_in : Json → Outcome Json
checks_in (obj q) = ok (get_or_null "requiredChecks" q)
checks_in v = if truth v then raised attribute_error else ok null

unfoldable pub declared_checks : Json → Outcome Json
unfolding checks_in
declared_checks (obj profile) = checks_in (get_or_null "qualification" profile)
declared_checks _ = ok null

pub schema_two : Fields → Bool
schema_two manifest = py_eq (get_or_null "schemaVersion" manifest) (int (pos 2))

pub declared_problems : Fields → Json → Json → Problems
declared_problems manifest required declared =
    if is_null declared
    then []
    else if not (schema_two manifest)
    then "a qualified manifest of a profile with required checks must be schema 2" ∷ []
    else problem_if (not (py_eq required declared))
        "qualification.requiredChecks does not match the profile"

abbrev pub is_grandfathered : Tree → Fields → Bool
is_grandfathered tree manifest =
    py_eq (grandfathered_revision (release_key tree manifest))
      (get_or_null "sha" (embedded_of manifest))

-- `core_sha`, `image_sha` and `firmware_revision` of this manifest.
unfoldable pub build_of : Tree → Fields → Build
unfolding grandfathered_revision release_key
build_of tree manifest = record {
  core_sha = axoloty_sha tree manifest;
  image_sha = image_sha tree manifest;
  firmware_revision =
      if is_grandfathered tree manifest then null else get_or_null "sha" (embedded_of manifest);
}

pub records_of_profile : Tree → Text → Json → Outcome (List Fields)
records_of_profile tree repo_root name =
    if is_nonempty_string name then discover_evidence tree repo_root name else ok []

abbrev pub if_schema_two : Bool → Outcome Problems → Outcome Problems
if_schema_two true problems = problems
if_schema_two false problems = ok []

-- What a qualified manifest is held to.
unfoldable pub qualified_problems :
    Tree → Text → Fields → Json → Json → List Json → Outcome Problems
unfolding declared_problems records_of_profile schema_two release_key grandfathered_revision
qualified_problems tree repo_root manifest profile required entries = do
  declared ← declared_checks profile
  discovered ← records_of_profile tree repo_root (get_or_null "profile" manifest)
  cited ← cited_evidence_problems entries discovered required (not (is_grandfathered tree manifest))
  unmet ←
      if_schema_two (schema_two manifest)
        (required_check_problems tree (build_of tree manifest) required (map obj discovered))
  ok (gather (declared_problems manifest required declared ∷ cited ∷ unmet ∷ []))

abbrev pub if_qualified : Bool → Outcome Problems → Outcome Problems
if_qualified true problems = problems
if_qualified false problems = ok []

abbrev pub entries_of : Fields → List Json
entries_of qualification = elim (as_array (get_or_null "evidence" qualification)) [
  | some entries ↦ entries
  | none ↦ []
]

abbrev is_array : Json → Bool
is_array (arr xs) = true
is_array _ = false

abbrev pub qualification_of : Fields → Fields
qualification_of manifest = or_empty_object (get_or_null "qualification" manifest)

abbrev pub is_qualified : Fields → Bool
is_qualified manifest = py_eq (get_or_null "status" (qualification_of manifest)) (str "qualified")

abbrev pub qualification_parts : Fields → Bool → Bool → Match → Problems → List Problems
qualification_parts manifest require_qualified known matches qualified =
    let qualification = qualification_of manifest in
    (qualified)
    ∷ (problem_if (is_qualified manifest && not matches.0)
        "a qualified manifest needs a passed evidence record for this Core revision and image checksum")
    ∷ (problem_if (require_qualified && not (is_qualified manifest))
        "this manifest is not qualified; a published release must be")
    ∷ (matches.1)
    ∷ (unless_object (get_or_null "qualification" manifest) "qualification must be an object")
    ∷ (problem_if (not known) "qualification.status must be qualified or unqualified")
    ∷ (problem_if (not (is_array (get_or_null "evidence" qualification)))
        "qualification.evidence must be a list")
    ∷ []

unfoldable pub qualification_problems : Tree → Text → Fields → Json → Bool → Outcome Problems
qualification_problems tree repo_root manifest profile require_qualified = do
  let qualification = qualification_of manifest
  known ← in_set (get_or_null "status" qualification) (str "qualified" ∷ str "unqualified" ∷ [])
  matches ← evidence_matches tree repo_root manifest (entries_of qualification)
  qualified ← if_qualified (is_qualified manifest) (
      qualified_problems tree repo_root manifest profile
        (get_or_null "requiredChecks" qualification) (entries_of qualification))
  ok (gather (qualification_parts manifest require_qualified known matches qualified))

-- `revocation["reason"]` is read for the message.
unfoldable pub revoked_problems : Option Fields → Outcome Problems
revoked_problems none = ok []
revoked_problems (some revocation) =
    if has_key "reason" revocation
    then ok ("this release certificate is revoked: %s" ∷ [])
    else raised key_error

unfoldable pub compatibility_problems : Fields → Problems
compatibility_problems manifest =
    let compatibility = or_empty_object (get_or_null "compatibility" manifest) in
    let expected =
      if py_eq (get_or_null "mode" manifest) (str "preview")
      then str "preview"
      else get_or_null "status" (qualification_of manifest) in
    unless_object (get_or_null "compatibility" manifest) "compatibility must be an object"
    ++ problem_if (not (py_eq (get_or_null "scope" compatibility) (str "profile")))
        "compatibility.scope must be profile; compatibility is per profile"
    ++ problem_if (not (py_eq (get_or_null "status" compatibility) expected))
        "compatibility.status must be %r, found %r"
    ++ problem_if (not (is_nonempty_string (get_or_null "description" compatibility)))
        "compatibility.description is required"

-- The checks of a manifest that is an object.
abbrev pub certificate_parts :
    Tree
    → Fields
    → Revocation
    → Fields
    → Profile
    → Problems
    → Problems
    → Problems
    → Problems
    → Problems
    → List Problems
certificate_parts tree manifest revocation core profile schema transport embedded qualification
      revoked =
    (qualification)
    ∷ (revoked)
    ∷ (axoloty_problems tree manifest core)
    ∷ (embedded)
    ∷ (resource_problems tree manifest profile.0)
    ∷ (revocation.1)
    ∷ (schema)
    ∷ (profile.1)
    ∷ (problem_if (not (is_nonempty_string (get_or_null "board" manifest)))
        "board is required; a release names the qualified board")
    ∷ (transport)
    ∷ (build_problems tree manifest)
    ∷ (compatibility_problems manifest)
    ∷ []

unfoldable pub certificate_problems : Tree → Text → Fields → Bool → Revocation → Outcome Problems
certificate_problems tree repo_root manifest require_qualified revocation = do
  schema ← schema_problems manifest
  profile ← profile_problems tree repo_root manifest
  transport ← transport_problems tree repo_root manifest
  core ← lock_core tree repo_root
  embedded ← embedded_problems tree repo_root manifest core
  qualification ← qualification_problems tree repo_root manifest profile.0 require_qualified
  revoked ← revoked_problems revocation.0
  ok (
      gather (
        certificate_parts tree manifest revocation core profile schema transport embedded
          qualification revoked))

unfoldable pub checked : Tree → Text → Bool → Bool → Revocation → Json → Outcome Problems
checked tree repo_root require_qualified true (some record_fields, problems) document = ok problems
checked tree repo_root require_qualified allow_revoked revocation (obj manifest) =
    certificate_problems tree repo_root manifest require_qualified revocation
checked tree repo_root require_qualified allow_revoked revocation _ =
    ok ("manifest must be a JSON object, found %s" ∷ [])

-- The problems; the program lists them in another order.
unfoldable pub validate : Tree → Text → Text → Bool → Bool → Outcome Problems
validate tree repo_root manifest_path require_qualified allow_revoked = do
  document ← load tree manifest_path
  checked tree repo_root require_qualified allow_revoked
      (load_revocation tree repo_root manifest_path) document
