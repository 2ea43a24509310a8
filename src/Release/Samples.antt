-- ===== src/Release/Samples.antt =====
-- A small repository with a qualified release.
use axoloty_embedded.Prelude.{
  ℕ, ◌≡◌, refl, Bool, true, false, not, String, str_eq, Option, none, some, List, [], ◌∷◌, All, any,
  if◌then◌else◌, ◌||◌, ◌<◌, length, map,
}
use axoloty_embedded.Prelude.Int.{pos}
use axoloty_embedded.Prelude.Text.{codes, codes_eq}
use axoloty_embedded.Outcome.{ok}
use axoloty_embedded.Host.{Read, text, os_error}
use axoloty_embedded.Json.{Json, str, Fields, arr, int, end, cons, null, field, nil, bool, obj}
use axoloty_embedded.Release.Manifest.{validate}
use axoloty_embedded.Release.Manifest.Correct.{IsCertificate, validate-IsCertificate}
use axoloty_embedded.Release.Tree.{Tree, Text, objects}
use axoloty_embedded.Release.Required.Correct.{
  checks_of, Satisfied, required_check_problems-Satisfied,
}
use axoloty_embedded.Release.Required.{Build, required_check_problems}
use axoloty_embedded.Release.Evidence.Cited.Correct.{IsCovered, cited_evidence_problems-IsCovered}
use axoloty_embedded.Release.Evidence.Cited.{cited_evidence_problems, required_of}
use axoloty_embedded.Release.Evidence.Cited.Citations.{Cites}

abbrev hex40 : Json
hex40 = str "0123456789012345678901234567890123456789"

abbrev hex64 : Json
hex64 = str "0123456789012345678901234567890123456789012345678901234567890123"

abbrev object : List (String × Json) → Json
object fs = obj (go fs)
  where
    go : List (String × Json) → Fields
    go [] = end
    go ((k, v) ∷ rest) = field k v (go rest)

abbrev required_checks : Json
required_checks = arr (
    cons
      (object (
        ("check", str "c")
        ∷ ("artifact", str "release")
        ∷ ("records", int (pos 1))
        ∷ ("units", int (pos 1))
        ∷ []))
      nil)

abbrev citation : Json
citation = object (
    ("path", str "docs/evidence/r.json")
    ∷ ("check", str "c")
    ∷ ("tier", null)
    ∷ ("status", str "passed")
    ∷ ("coreRevision", hex40)
    ∷ ("firmwareSHA256", hex64)
    ∷ ("firmwareRevision", hex40)
    ∷ ("device", str "d")
    ∷ [])

abbrev manifest_document : Json
manifest_document = object (
    ("schemaVersion", int (pos 2))
    ∷ ("mode", str "release")
    ∷ ("profile", str "p")
    ∷ ("application", str "a")
    ∷ ("platform", str "q")
    ∷ ("board", str "b")
    ∷ (
      "transport",
      object (
          ("name", str "t")
          ∷ ("backend", str "k")
          ∷ ("version", str "1")
          ∷ ("versionSource", str "Platforms/q/t.json")
          ∷ ("component", null)
          ∷ ("revision", null)
          ∷ []),
    )
    ∷ (
      "axoloty",
      object (
          ("sha", hex40)
          ∷ ("dirty", bool false)
          ∷ ("contractSha256", hex64)
          ∷ ("version", str "0.1.0")
          ∷ ("tag", str "v")
          ∷ []),
    )
    ∷ (
      "embedded",
      object (("version", str "0.1.0-embedded.1") ∷ ("sha", hex40) ∷ ("dirty", bool false) ∷ []),
    )
    ∷ ("toolchain", object (("swift", str "6") ∷ ("sdk", str "5") ∷ ("target", str "c6") ∷ []))
    ∷ ("configurationFingerprint", hex64)
    ∷ (
      "image",
      object (("path", str "i.bin") ∷ ("sha256", hex64) ∷ ("byteCount", int (pos 10)) ∷ []),
    )
    ∷ (
      "qualification",
      object (
          ("status", str "qualified")
          ∷ ("evidence", arr (cons citation nil))
          ∷ ("requiredChecks", required_checks)
          ∷ []),
    )
    ∷ (
      "compatibility",
      object
          (("scope", str "profile") ∷ ("status", str "qualified") ∷ ("description", str "x") ∷ []),
    )
    ∷ [])

abbrev profile_document : Json
profile_document = object (
    ("application", str "a")
    ∷ ("platform", str "q")
    ∷ ("board", str "b")
    ∷ ("transport", str "t")
    ∷ ("qualification", object (("requiredChecks", required_checks) ∷ []))
    ∷ [])

abbrev lock_document : Json
lock_document =
    object (
      ("core", object (("revision", hex40) ∷ ("version", str "0.1.0") ∷ ("tag", str "v") ∷ []))
      ∷ [])

abbrev record_document : Json
record_document = object (
    ("schemaVersion", int (pos 1))
    ∷ ("status", str "passed")
    ∷ ("profile", str "p")
    ∷ ("check", str "c")
    ∷ ("recordedAt", str "x")
    ∷ ("device", str "d")
    ∷ ("firmwareSHA256", hex64)
    ∷ ("coreRevision", hex40)
    ∷ ("firmwareRevision", hex40)
    ∷ ("protocol", str "s")
    ∷ ("result", str "1/1")
    ∷ [])

abbrev source_document : Json
source_document = object (("component", str "k") ∷ ("version", str "1") ∷ [])

abbrev documents : List (String × Json)
documents =
    ("/r/releases/p/m.json", manifest_document)
    ∷ ("/r/Profiles/p/profile.json", profile_document)
    ∷ ("/r/axoloty-core.lock.json", lock_document)
    ∷ ("/r/docs/evidence/r.json", record_document)
    ∷ ("/r/Platforms/q/t.json", source_document)
    ∷ []

-- A document's text is its path.
abbrev reads : List (String × Json) → Text → Read
reads [] path = if codes_eq path (codes "/r/VERSION") then text "0.1.0-embedded.1\n" else os_error
reads ((name, v) ∷ rest) path = if codes_eq path (codes name) then text name else reads rest path

abbrev parses : List (String × Json) → String → Option Json
parses [] contents = none
parses ((name, v) ∷ rest) contents = if str_eq name contents then some v else parses rest contents

abbrev is_readable : Read → Bool
is_readable (text contents) = true
is_readable _ = false

abbrev repository : Tree
repository = record {
  read_text = reads documents;
  parse_json = parses documents;
  is_file = λ path. is_readable (reads documents path);
  is_dir = λ path. true;
  evidence_names = "r.json" ∷ [];
  display = λ v. [];
}

release_run : validate repository (codes "/r") (codes "/r/releases/p/m.json") true false ≡ ok []
unfolding axoloty_embedded.Release.Tree.load axoloty_embedded.Release.Tree.is_nonempty_string
    axoloty_embedded.Release.Tree.in_set axoloty_embedded.Release.Tree.join
    axoloty_embedded.Release.Required.same_revision axoloty_embedded.Release.Required.image_matches
    axoloty_embedded.Release.Required.accepts axoloty_embedded.Release.Required.accepted_of
    axoloty_embedded.Release.Required.records_of axoloty_embedded.Release.Required.observed_of
    axoloty_embedded.Release.Required.judge axoloty_embedded.Release.Required.check_problems
    axoloty_embedded.Release.Required.one_required axoloty_embedded.Release.Required.each_required
    axoloty_embedded.Release.Required.required_check_problems
    axoloty_embedded.Release.Evidence.record_problems
    axoloty_embedded.Release.Evidence.validate_evidence
    axoloty_embedded.Release.Evidence.cited_shape axoloty_embedded.Release.Evidence.each_name
    axoloty_embedded.Release.Evidence.discover_evidence
    axoloty_embedded.Release.Evidence.Cited.actual_get
    axoloty_embedded.Release.Evidence.Cited.field_problems
    axoloty_embedded.Release.Evidence.Cited.cited_problems
    axoloty_embedded.Release.Evidence.Cited.each_cited
    axoloty_embedded.Release.Evidence.Cited.required_names
    axoloty_embedded.Release.Evidence.Cited.is_cited
    axoloty_embedded.Release.Evidence.Cited.uncited_problems
    axoloty_embedded.Release.Evidence.Cited.each_uncited
    axoloty_embedded.Release.Evidence.Cited.cited_evidence_problems
    axoloty_embedded.Release.Paths.absolute_parts axoloty_embedded.Release.Paths.slashed
    axoloty_embedded.Release.Paths.parts_behind axoloty_embedded.Release.Paths.is_within
    axoloty_embedded.Release.Paths.joined axoloty_embedded.Release.Paths.loaded_revocation
    axoloty_embedded.Release.Paths.revocation_at axoloty_embedded.Release.Paths.load_revocation
    axoloty_embedded.Release.Transport.espidf_component_version
    axoloty_embedded.Release.Transport.json_source_problems
    axoloty_embedded.Release.Transport.loaded_source
    axoloty_embedded.Release.Transport.validate_transport_source
    axoloty_embedded.Release.Identity.schema_problems
    axoloty_embedded.Release.Identity.profile_problems
    axoloty_embedded.Release.Identity.transport_problems axoloty_embedded.Release.Identity.lock_core
    axoloty_embedded.Release.Identity.mode_problems
    axoloty_embedded.Release.Identity.axoloty_problems
    axoloty_embedded.Release.Identity.version_base
    axoloty_embedded.Release.Identity.embedded_problems
    axoloty_embedded.Release.Identity.build_problems
    axoloty_embedded.Release.Manifest.resource_problems
    axoloty_embedded.Release.Manifest.evidence_matches
    axoloty_embedded.Release.Manifest.declared_checks axoloty_embedded.Release.Manifest.build_of
    axoloty_embedded.Release.Manifest.qualified_problems
    axoloty_embedded.Release.Manifest.qualification_problems
    axoloty_embedded.Release.Manifest.revoked_problems
    axoloty_embedded.Release.Manifest.compatibility_problems
    axoloty_embedded.Release.Manifest.certificate_problems axoloty_embedded.Release.Manifest.checked
    axoloty_embedded.Release.Manifest.validate axoloty_embedded.Json.get_or_null
    axoloty_embedded.Json.has_key axoloty_embedded.Json.nonempty_string
    axoloty_embedded.Json.is_positive_uint32 axoloty_embedded.Json.truth
    axoloty_embedded.Json.is_hashable axoloty_embedded.Json.one_of axoloty_embedded.Json.get
    axoloty_embedded.Json.size axoloty_embedded.Json.py_eq axoloty_embedded.Json.items_eq
    axoloty_embedded.Json.fields_in axoloty_embedded.Json.Load.put
    axoloty_embedded.Json.Load.unique_object axoloty_embedded.Json.Load.last_wins
    axoloty_embedded.Json.Load.keys_distinct axoloty_embedded.Json.Load.load_unique
    axoloty_embedded.Json.Load.load_unique_items axoloty_embedded.Json.Load.load_unique_fields
    axoloty_embedded.Json.Load.load_plain axoloty_embedded.Json.Load.load_plain_items
    axoloty_embedded.Json.Load.load_plain_fields axoloty_embedded.Json.Load.well_keyed
    axoloty_embedded.Json.Load.well_keyed_items axoloty_embedded.Json.Load.well_keyed_fields
    axoloty_embedded.Prelude.Text.codes_eq axoloty_embedded.Prelude.Text.after_prefix
    axoloty_embedded.Prelude.Text.starts_with axoloty_embedded.Prelude.Text.ends_with
    axoloty_embedded.Prelude.Text.contains_text axoloty_embedded.Prelude.Text.split_once
    axoloty_embedded.Prelude.Text.split_on axoloty_embedded.Prelude.Text.is_space
    axoloty_embedded.Prelude.Text.strip_left axoloty_embedded.Prelude.Text.strip
    axoloty_embedded.Prelude.Text.lower axoloty_embedded.Prelude.Text.is_line_break
    axoloty_embedded.Prelude.Text.split_breaks axoloty_embedded.Prelude.Text.splitlines
    axoloty_embedded.Prelude.Text.is_hex_digit axoloty_embedded.Prelude.Text.is_hex
    axoloty_embedded.Host.path_parts axoloty_embedded.Host.path_name
release_run = refl

validate-IsCertificate_example :
    IsCertificate repository (codes "/r") (codes "/r/releases/p/m.json")
validate-IsCertificate_example =
    validate-IsCertificate repository (codes "/r") (codes "/r/releases/p/m.json") release_run

abbrev sample_build : Build
sample_build = record {
  core_sha = codes "0123456789012345678901234567890123456789";
  image_sha = codes "0123456789012345678901234567890123456789012345678901234567890123";
  firmware_revision = hex40;
}

required_run :
    required_check_problems repository sample_build required_checks (citation ∷ []) ≡ ok []
unfolding axoloty_embedded.Release.Tree.load axoloty_embedded.Release.Tree.is_nonempty_string
    axoloty_embedded.Release.Tree.in_set axoloty_embedded.Release.Tree.join
    axoloty_embedded.Release.Required.same_revision axoloty_embedded.Release.Required.image_matches
    axoloty_embedded.Release.Required.accepts axoloty_embedded.Release.Required.accepted_of
    axoloty_embedded.Release.Required.records_of axoloty_embedded.Release.Required.observed_of
    axoloty_embedded.Release.Required.judge axoloty_embedded.Release.Required.check_problems
    axoloty_embedded.Release.Required.one_required axoloty_embedded.Release.Required.each_required
    axoloty_embedded.Release.Required.required_check_problems
    axoloty_embedded.Release.Evidence.Cited.actual_get
    axoloty_embedded.Release.Evidence.Cited.field_problems
    axoloty_embedded.Release.Evidence.Cited.cited_problems
    axoloty_embedded.Release.Evidence.Cited.each_cited
    axoloty_embedded.Release.Evidence.Cited.required_names
    axoloty_embedded.Release.Evidence.Cited.is_cited
    axoloty_embedded.Release.Evidence.Cited.uncited_problems
    axoloty_embedded.Release.Evidence.Cited.each_uncited
    axoloty_embedded.Release.Evidence.Cited.cited_evidence_problems
    axoloty_embedded.Json.get_or_null axoloty_embedded.Json.has_key
    axoloty_embedded.Json.nonempty_string axoloty_embedded.Json.is_positive_uint32
    axoloty_embedded.Json.truth axoloty_embedded.Json.is_hashable axoloty_embedded.Json.one_of
    axoloty_embedded.Json.get axoloty_embedded.Json.size axoloty_embedded.Json.py_eq
    axoloty_embedded.Json.items_eq axoloty_embedded.Json.fields_in
    axoloty_embedded.Prelude.Text.codes_eq axoloty_embedded.Prelude.Text.after_prefix
    axoloty_embedded.Prelude.Text.starts_with axoloty_embedded.Prelude.Text.ends_with
    axoloty_embedded.Prelude.Text.contains_text axoloty_embedded.Prelude.Text.split_once
    axoloty_embedded.Prelude.Text.split_on axoloty_embedded.Prelude.Text.is_space
    axoloty_embedded.Prelude.Text.strip_left axoloty_embedded.Prelude.Text.strip
    axoloty_embedded.Prelude.Text.lower axoloty_embedded.Prelude.Text.is_line_break
    axoloty_embedded.Prelude.Text.split_breaks axoloty_embedded.Prelude.Text.splitlines
    axoloty_embedded.Prelude.Text.is_hex_digit axoloty_embedded.Prelude.Text.is_hex
required_run = refl

required_check_problems-Satisfied_example :
    (0 < length (checks_of required_checks))
    × All (Satisfied repository sample_build (citation ∷ [])) (checks_of required_checks)
required_check_problems-Satisfied_example =
    required_check_problems-Satisfied repository sample_build required_checks (citation ∷ [])
      required_run

-- A record of the check that failed, and one that the manifest leaves out.
abbrev failed_record : Fields
failed_record = field "path" (str "docs/evidence/f.json") (field "status" (str "failed") end)

cited_run :
    cited_evidence_problems (citation ∷ []) (objects (citation ∷ [])) required_checks true ≡ ok []
unfolding axoloty_embedded.Release.Tree.load axoloty_embedded.Release.Tree.is_nonempty_string
    axoloty_embedded.Release.Tree.in_set axoloty_embedded.Release.Tree.join
    axoloty_embedded.Release.Required.same_revision axoloty_embedded.Release.Required.image_matches
    axoloty_embedded.Release.Required.accepts axoloty_embedded.Release.Required.accepted_of
    axoloty_embedded.Release.Required.records_of axoloty_embedded.Release.Required.observed_of
    axoloty_embedded.Release.Required.judge axoloty_embedded.Release.Required.check_problems
    axoloty_embedded.Release.Required.one_required axoloty_embedded.Release.Required.each_required
    axoloty_embedded.Release.Required.required_check_problems
    axoloty_embedded.Release.Evidence.Cited.actual_get
    axoloty_embedded.Release.Evidence.Cited.field_problems
    axoloty_embedded.Release.Evidence.Cited.cited_problems
    axoloty_embedded.Release.Evidence.Cited.each_cited
    axoloty_embedded.Release.Evidence.Cited.required_names
    axoloty_embedded.Release.Evidence.Cited.is_cited
    axoloty_embedded.Release.Evidence.Cited.uncited_problems
    axoloty_embedded.Release.Evidence.Cited.each_uncited
    axoloty_embedded.Release.Evidence.Cited.cited_evidence_problems
    axoloty_embedded.Json.get_or_null axoloty_embedded.Json.has_key
    axoloty_embedded.Json.nonempty_string axoloty_embedded.Json.is_positive_uint32
    axoloty_embedded.Json.truth axoloty_embedded.Json.is_hashable axoloty_embedded.Json.one_of
    axoloty_embedded.Json.get axoloty_embedded.Json.size axoloty_embedded.Json.py_eq
    axoloty_embedded.Json.items_eq axoloty_embedded.Json.fields_in
    axoloty_embedded.Prelude.Text.codes_eq axoloty_embedded.Prelude.Text.after_prefix
    axoloty_embedded.Prelude.Text.starts_with axoloty_embedded.Prelude.Text.ends_with
    axoloty_embedded.Prelude.Text.contains_text axoloty_embedded.Prelude.Text.split_once
    axoloty_embedded.Prelude.Text.split_on axoloty_embedded.Prelude.Text.is_space
    axoloty_embedded.Prelude.Text.strip_left axoloty_embedded.Prelude.Text.strip
    axoloty_embedded.Prelude.Text.lower axoloty_embedded.Prelude.Text.is_line_break
    axoloty_embedded.Prelude.Text.split_breaks axoloty_embedded.Prelude.Text.splitlines
    axoloty_embedded.Prelude.Text.is_hex_digit axoloty_embedded.Prelude.Text.is_hex
cited_run = refl

left_out_run :
    cited_evidence_problems
      (citation ∷ [])
      (failed_record ∷ objects (citation ∷ []))
      required_checks
      true
    ≡ ok ("evidence %s is a failed record of this profile and the manifest does not cite it" ∷ [])
unfolding axoloty_embedded.Release.Tree.load axoloty_embedded.Release.Tree.is_nonempty_string
    axoloty_embedded.Release.Tree.in_set axoloty_embedded.Release.Tree.join
    axoloty_embedded.Release.Required.same_revision axoloty_embedded.Release.Required.image_matches
    axoloty_embedded.Release.Required.accepts axoloty_embedded.Release.Required.accepted_of
    axoloty_embedded.Release.Required.records_of axoloty_embedded.Release.Required.observed_of
    axoloty_embedded.Release.Required.judge axoloty_embedded.Release.Required.check_problems
    axoloty_embedded.Release.Required.one_required axoloty_embedded.Release.Required.each_required
    axoloty_embedded.Release.Required.required_check_problems
    axoloty_embedded.Release.Evidence.Cited.actual_get
    axoloty_embedded.Release.Evidence.Cited.field_problems
    axoloty_embedded.Release.Evidence.Cited.cited_problems
    axoloty_embedded.Release.Evidence.Cited.each_cited
    axoloty_embedded.Release.Evidence.Cited.required_names
    axoloty_embedded.Release.Evidence.Cited.is_cited
    axoloty_embedded.Release.Evidence.Cited.uncited_problems
    axoloty_embedded.Release.Evidence.Cited.each_uncited
    axoloty_embedded.Release.Evidence.Cited.cited_evidence_problems
    axoloty_embedded.Json.get_or_null axoloty_embedded.Json.has_key
    axoloty_embedded.Json.nonempty_string axoloty_embedded.Json.is_positive_uint32
    axoloty_embedded.Json.truth axoloty_embedded.Json.is_hashable axoloty_embedded.Json.one_of
    axoloty_embedded.Json.get axoloty_embedded.Json.size axoloty_embedded.Json.py_eq
    axoloty_embedded.Json.items_eq axoloty_embedded.Json.fields_in
    axoloty_embedded.Prelude.Text.codes_eq axoloty_embedded.Prelude.Text.after_prefix
    axoloty_embedded.Prelude.Text.starts_with axoloty_embedded.Prelude.Text.ends_with
    axoloty_embedded.Prelude.Text.contains_text axoloty_embedded.Prelude.Text.split_once
    axoloty_embedded.Prelude.Text.split_on axoloty_embedded.Prelude.Text.is_space
    axoloty_embedded.Prelude.Text.strip_left axoloty_embedded.Prelude.Text.strip
    axoloty_embedded.Prelude.Text.lower axoloty_embedded.Prelude.Text.is_line_break
    axoloty_embedded.Prelude.Text.split_breaks axoloty_embedded.Prelude.Text.splitlines
    axoloty_embedded.Prelude.Text.is_hex_digit axoloty_embedded.Prelude.Text.is_hex
left_out_run = refl

cited_evidence_problems-IsCovered_example :
    All (Cites true (objects (citation ∷ []))) (objects (citation ∷ []))
    × All (IsCovered (objects (citation ∷ [])) required_checks) (objects (citation ∷ []))
cited_evidence_problems-IsCovered_example =
    cited_evidence_problems-IsCovered (citation ∷ []) (objects (citation ∷ [])) required_checks true
      cited_run
