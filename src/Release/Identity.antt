-- ===== src/Release/Identity.antt =====
-- The parts of `validate` in Tools/validate-release-manifest.py that name what was built: the
-- profile and its axes, the transport, Axoloty, the firmware, the toolchain and the image.
use axoloty_embedded.Prelude.{
  ℕ, Bool, true, false, not, ◌&&◌, ◌||◌, String, Option, none, some, List, [], ◌∷◌, ◌++◌,
  if◌then◌else◌, all, any, ltb, leb,
}
use axoloty_embedded.Prelude.Text.{
  codes, codes_eq, strip, split_on, split_once, after_prefix, is_hex,
}
use axoloty_embedded.Outcome.{Outcome, ok, raised, ◌>>=◌, attribute_error, io_error, unicode_error}
use axoloty_embedded.Release.Tree.{
  Tree, Problems, Text, problem_if, in_set, is_nonempty_string, field_of, join, shown_at, load,
  from_root, shown, gather,
}
use axoloty_embedded.Json.{
  Json, Fields, obj, get_or_null, str, int, end, has_key, is_object, py_eq, null, is_null,
}
use axoloty_embedded.Host.{Read, text, os_error, undecodable}
use axoloty_embedded.Release.Paths.{absolute_parts, is_within, slashed}
use axoloty_embedded.Release.Required.{is_text}
use axoloty_embedded.Prelude.Int.{pos}
use axoloty_embedded.Release.Fields.{is_false}
use axoloty_embedded.Release.Transport.{validate_transport_source}

-- `value` where it is an object, else `{}`, with the problem.
abbrev pub or_empty_object : Json → Fields
or_empty_object (obj fs) = fs
or_empty_object _ = end

abbrev pub unless_object : Json → String → Problems
unless_object v message = problem_if (not (is_object v)) message

missing_strings : String → Fields → List String → Problems
missing_strings message fs [] = []
missing_strings message fs (name ∷ names) =
    problem_if (not (is_nonempty_string (get_or_null name fs))) message
    ++ missing_strings message fs names

unfoldable pub schema_problems : Fields → Outcome Problems
schema_problems manifest = do
  known ← in_set (get_or_null "schemaVersion" manifest) (int (pos 1) ∷ int (pos 2) ∷ [])
  known_mode ← in_set (get_or_null "mode" manifest) (str "release" ∷ str "preview" ∷ [])
  ok (
      problem_if (not known) "schemaVersion must be 1 or 2, found %r"
      ++ problem_if (not known_mode) "mode must be release or preview, found %r")

-- The profile's axes against the manifest's.
axis_problems : Fields → Fields → List String → Problems
axis_problems manifest profile [] = []
axis_problems manifest profile (name ∷ names) =
    (if is_nonempty_string (get_or_null name profile)
      then problem_if (not (py_eq (get_or_null name manifest) (get_or_null name profile)))
          "%s is %r but the profile declares %r"
      else "Profiles/%s/profile.json does not declare %s" ∷ [])
    ++ axis_problems manifest profile names

directory_problems : Tree → Text → String → Json → Problems
directory_problems tree repo_root axis (str name) =
    problem_if
      (is_nonempty_string (str name)
        && not (tree.is_dir (join (join repo_root (codes axis)) (codes name))))
      "%s %r does not exist under %s/"
directory_problems tree repo_root axis _ = []

declared_transport_problems : Fields → Fields → Problems
declared_transport_problems manifest profile =
    let declared = get_or_null "transport" profile in
    if is_nonempty_string declared
    then problem_if (not (py_eq (field_of "name" (get_or_null "transport" manifest)) declared))
        "transport.name is %r but the profile declares %r"
    else "Profiles/%s/profile.json does not declare transport" ∷ []

-- The profile, null where there is none, with the problems of it.
abbrev pub Profile : Type 0
Profile = Json × Problems

loaded_profile : Tree → Text → Fields → Json → Outcome Profile
unfolding axis_problems declared_transport_problems directory_problems
loaded_profile tree repo_root manifest (obj profile) = ok (
  obj profile,
  axis_problems manifest profile ("application" ∷ "platform" ∷ "board" ∷ [])
      ++ declared_transport_problems manifest profile
      ++ directory_problems tree repo_root "Applications" (get_or_null "application" manifest)
      ++ directory_problems tree repo_root "Platforms" (get_or_null "platform" manifest)
      ++ directory_problems tree repo_root "Transports"
          (field_of "name" (get_or_null "transport" manifest)),
)
loaded_profile tree repo_root manifest _ = raised attribute_error

profile_path : Text → String → Text
profile_path repo_root name =
    join (join (join repo_root (codes "Profiles")) (codes name)) (codes "profile.json")

named_profile : Tree → Text → Fields → Json → Outcome Profile
unfolding loaded_profile profile_path
named_profile tree repo_root manifest (str name) =
    if not (is_nonempty_string (str name))
    then ok (null, "profile is required" ∷ [])
    else if not (tree.is_file (profile_path repo_root name))
    then ok (null, "profile %r has no Profiles/%s/profile.json" ∷ [])
    else (load tree (profile_path repo_root name) >>= loaded_profile tree repo_root manifest)
named_profile tree repo_root manifest _ = ok (null, "profile is required" ∷ [])

unfoldable pub profile_problems : Tree → Text → Fields → Outcome Profile
unfolding named_profile
profile_problems tree repo_root manifest =
    named_profile tree repo_root manifest (get_or_null "profile" manifest)

-- The file that pins the backend.
source_problems : Tree → Text → Fields → Json → Text → Outcome Problems
source_problems tree repo_root transport (str platform) version_source =
    let source = absolute_parts repo_root version_source in
    let directory = absolute_parts (join repo_root (codes "Platforms")) (codes platform) in
    if not (is_nonempty_string (str platform)) || not (is_within source directory)
    then ok ("transport.versionSource %r is outside Platforms/%s" ∷ [])
    else if not (tree.is_file (slashed source))
    then ok ("transport.versionSource %r does not exist" ∷ [])
    else validate_transport_source tree transport (slashed source)
source_problems tree repo_root transport _ version_source =
    ok ("transport.versionSource %r is outside Platforms/%s" ∷ [])

version_source_problems : Tree → Text → Fields → Fields → Json → Outcome Problems
unfolding source_problems
version_source_problems tree repo_root manifest transport (str version_source) =
    if not (is_nonempty_string (str version_source))
    then ok []
    else if from_root (codes version_source)
        || any (codes_eq (codes "..")) (split_on b'/' (codes version_source))
    then ok ("transport.versionSource must be a repository-relative path" ∷ [])
    else source_problems tree repo_root transport (get_or_null "platform" manifest)
        (codes version_source)
version_source_problems tree repo_root manifest transport _ = ok []

component_problems : Fields → Problems
component_problems transport =
    if has_key "component" transport
    then problem_if
        (not (
          is_null (get_or_null "component" transport)
          || is_nonempty_string (get_or_null "component" transport)))
        "transport.component must be a non-empty string or null"
    else "transport.component is required; it names the pinned entry that supplies the backend" ∷ []

backend_revision_problems : Tree → Fields → Problems
backend_revision_problems tree transport =
    let revision = get_or_null "revision" transport in
    if has_key "revision" transport
    then problem_if (not (is_null revision || is_hex 40 (shown tree revision)))
        "transport.revision must be null or a full commit SHA"
    else "transport.revision is required; it is the pinned backend commit or null" ∷ []

unfoldable pub transport_problems : Tree → Text → Fields → Outcome Problems
unfolding missing_strings version_source_problems component_problems backend_revision_problems
transport_problems tree repo_root manifest = do
  let value = get_or_null "transport" manifest
  let transport = or_empty_object value
  source ←
      version_source_problems tree repo_root manifest transport
        (get_or_null "versionSource" transport)
  ok (
      unless_object value "transport must be an object"
      ++ missing_strings "transport.%s is required" transport
          ("name" ∷ "backend" ∷ "version" ∷ "versionSource" ∷ [])
      ++ component_problems transport
      ++ backend_revision_problems tree transport
      ++ source)

-- The lock, and its object `core`.
read_lock : Tree → Text → Outcome Json
read_lock tree repo_root =
    let path = join repo_root (codes "axoloty-core.lock.json") in
    if tree.is_file path then load tree path else ok (obj end)

core_of : Json → Outcome Fields
core_of (obj lock) = ok (or_empty_object (get_or_null "core" lock))
core_of _ = raised attribute_error

unfoldable pub lock_core : Tree → Text → Outcome Fields
unfolding read_lock core_of
lock_core tree repo_root = read_lock tree repo_root >>= core_of

abbrev pub axoloty_of : Fields → Fields
axoloty_of manifest = or_empty_object (get_or_null "axoloty" manifest)

abbrev pub axoloty_sha : Tree → Fields → Text
axoloty_sha tree manifest = shown_at tree "sha" (axoloty_of manifest)

-- A release builds the locked revision, a preview another one.
abbrev pub release_parts : Tree → Fields → Fields → List Problems
release_parts tree manifest core =
    let axoloty = axoloty_of manifest in
    problem_if (not (is_text (axoloty_sha tree manifest) (get_or_null "revision" core)))
      "axoloty.sha does not match the lock revision"
    ∷ problem_if (not (py_eq (get_or_null "version" axoloty) (get_or_null "version" core)))
        "axoloty.version does not match the lock version"
    ∷ problem_if (not (py_eq (get_or_null "tag" axoloty) (get_or_null "tag" core)))
        "axoloty.tag does not match the lock tag"
    ∷ problem_if (not (is_nonempty_string (get_or_null "tag" axoloty)))
        "axoloty.tag is required; a release certificate must name a tagged Core revision"
    ∷ []

abbrev pub preview_problems : Tree → Fields → Fields → Problems
preview_problems tree manifest core =
    let axoloty = axoloty_of manifest in
    problem_if (is_text (axoloty_sha tree manifest) (get_or_null "revision" core))
      "a preview manifest must build an off-lock Axoloty revision"
    ++ problem_if
        (not (is_null (get_or_null "version" axoloty) && is_null (get_or_null "tag" axoloty)))
        "a preview manifest must not assert an Axoloty version or tag"

abbrev pub by_mode : Bool → Bool → Problems → Problems → Problems
by_mode true preview released previewed = released
by_mode false true released previewed = previewed
by_mode false false released previewed = []

unfoldable pub mode_problems : Tree → Fields → Fields → Problems
mode_problems tree manifest core =
    by_mode (py_eq (get_or_null "mode" manifest) (str "release"))
      (py_eq (get_or_null "mode" manifest) (str "preview"))
      (gather (release_parts tree manifest core)) (preview_problems tree manifest core)

unfoldable pub axoloty_problems : Tree → Fields → Fields → Problems
axoloty_problems tree manifest core =
    let axoloty = axoloty_of manifest in
    unless_object (get_or_null "axoloty" manifest) "axoloty must be an object"
    ++ problem_if (not (is_hex 40 (axoloty_sha tree manifest)))
        "axoloty.sha must be a full 40-character commit SHA, found %r"
    ++ problem_if (not (is_false (get_or_null "dirty" axoloty)))
        "axoloty.dirty must be false; a release is built from a clean Core checkout"
    ++ problem_if
        (not (
          is_nonempty_string (get_or_null "contractSha256" axoloty)
          && is_hex 64 (shown_at tree "contractSha256" axoloty)))
        "axoloty.contractSha256 must be a SHA-256"
    ++ mode_problems tree manifest core

-- `^(\d+\.\d+\.\d+)-embedded\.([1-9]\d*)$` on ASCII digits: the base version.
abbrev is_digit : ℕ → Bool
is_digit c = leb 48 c && leb c 57

abbrev is_number : Text → Bool
is_number part = not (codes_eq part []) && all is_digit part

abbrev is_release_number : Text → Bool
is_release_number [] = false
is_release_number (c ∷ digits) = leb 49 c && leb c 57 && all is_digit digits

abbrev is_base : List Text → Bool
is_base (a ∷ b ∷ c ∷ []) = is_number a && is_number b && is_number c
is_base _ = false

unfoldable pub version_base : Text → Option Text
version_base version = elim (split_once b'-' version).1 [
  | none ↦ none
  | some rest ↦ elim (after_prefix (codes "embedded.") rest) [
    | none ↦ none
    | some number ↦
        if is_base (split_on b'.' (split_once b'-' version).0) && is_release_number number
        then some (split_once b'-' version).0
        else none
  ]
]

abbrev pub embedded_of : Fields → Fields
embedded_of manifest = or_empty_object (get_or_null "embedded" manifest)

base_problems : Json → Fields → Option Text → Problems
base_problems mode core none = "VERSION is not <base>-embedded.<revision>: %r" ∷ []
base_problems mode core (some base) =
    problem_if (not (py_eq mode (str "preview")) && not (is_text base (get_or_null "version" core)))
      "VERSION base %s does not match the lock version %s"

version_text_problems : Fields → Fields → Read → Outcome Problems
unfolding base_problems
version_text_problems manifest core os_error = raised io_error
version_text_problems manifest core undecodable = raised unicode_error
version_text_problems manifest core (text contents) =
    let version = strip (codes contents) in
    ok (
      problem_if (not (is_text version (get_or_null "version" (embedded_of manifest))))
        "embedded.version %r does not match VERSION %r"
      ++ base_problems (get_or_null "mode" manifest) core (version_base version))

version_file_problems : Tree → Text → Fields → Fields → Outcome Problems
unfolding version_text_problems
version_file_problems tree repo_root manifest core =
    let path = join repo_root (codes "VERSION") in
    if tree.is_file path
    then version_text_problems manifest core (tree.read_text path)
    else ok ("VERSION is missing" ∷ [])

unfoldable pub embedded_problems : Tree → Text → Fields → Fields → Outcome Problems
unfolding version_file_problems
embedded_problems tree repo_root manifest core = do
  version ← version_file_problems tree repo_root manifest core
  let embedded = embedded_of manifest
  ok (
      unless_object (get_or_null "embedded" manifest) "embedded must be an object"
      ++ version
      ++ problem_if (not (is_hex 40 (shown_at tree "sha" embedded)))
          "embedded.sha must be a full 40-character commit SHA"
      ++ problem_if (not (is_false (get_or_null "dirty" embedded)))
          "embedded.dirty must be false; a release is built from a clean firmware checkout")

abbrev last_part : List Text → Text
last_part [] = []
last_part (part ∷ []) = part
last_part (part ∷ parts) = last_part parts

-- `os.path.basename(path) == path`
is_file_name : Json → Bool
is_file_name (str path) =
    is_nonempty_string (str path) && codes_eq (last_part (split_on b'/' (codes path))) (codes path)
is_file_name _ = false

is_positive : Json → Bool
is_positive (int (pos n)) = ltb 0 n
is_positive _ = false

abbrev pub image_of : Fields → Fields
image_of manifest = or_empty_object (get_or_null "image" manifest)

abbrev pub image_sha : Tree → Fields → Text
image_sha tree manifest = shown_at tree "sha256" (image_of manifest)

unfoldable pub build_problems : Tree → Fields → Problems
unfolding missing_strings is_file_name is_positive
build_problems tree manifest =
    unless_object (get_or_null "toolchain" manifest) "toolchain must be an object"
    ++ missing_strings "toolchain.%s is required; the build observed it"
        (or_empty_object (get_or_null "toolchain" manifest)) ("swift" ∷ "sdk" ∷ "target" ∷ [])
    ++ problem_if (not (is_hex 64 (shown_at tree "configurationFingerprint" manifest)))
        "configurationFingerprint must be a SHA-256"
    ++ unless_object (get_or_null "image" manifest) "image must be an object"
    ++ problem_if (not (is_file_name (get_or_null "path" (image_of manifest))))
        "image.path must be a file name, not a machine path"
    ++ problem_if (not (is_hex 64 (image_sha tree manifest))) "image.sha256 must be a SHA-256"
    ++ problem_if (not (is_positive (get_or_null "byteCount" (image_of manifest))))
        "image.byteCount must be a positive integer"
