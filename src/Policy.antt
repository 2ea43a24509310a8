-- ===== src/Policy.antt =====
-- Tools/EmbeddedApplicationMacros/static_storage_policy.py: which storage policy the configured
-- image and the selected application fall under.
pub mod Correct
mod Samples
use axoloty_embedded.Prelude.{
  ℕ, ◌≡◌, refl, Bool, true, false, not, ◌&&◌, ◌||◌, String, str_eq, Option, none, some, List, [],
  ◌∷◌, ◌==◌, if◌then◌else◌, length, any,
}
use axoloty_embedded.Prelude.Int.{pos}
use axoloty_embedded.Prelude.Text.{
  codes, codes_eq, splitlines, after_prefix, starts_with, ends_with, contains_text, split_once,
}
use axoloty_embedded.Outcome.{
  Outcome, ok, raised, rejected, unicode_error, Exception, reject_if, ◌>>=◌, ◌>>◌,
}
use axoloty_embedded.Json.{
  Json, int, str, Fields, as_object, get_or_null, has_key, is_positive_uint32, nonempty_string,
  py_eq,
}
use axoloty_embedded.Json.Load.{load_unique}
use axoloty_embedded.Host.{Host, Read, text, os_error, undecodable, slash, path_name}

pub data Classification : Type 0 where
  c_only swift_not_configured : Classification
  swift_configured : String → Classification

-- The `except` clause takes OSError and JSONDecodeError. A UnicodeDecodeError is neither.
decoded : Option Json → Outcome Json
decoded none = raised (rejected "cannot read %s %s: %s")
decoded (some document) = load_unique document

read_json : Host → Read → Outcome Json
unfolding decoded
read_json host (text contents) = decoded (host.parse_json contents)
read_json host os_error = raised (rejected "cannot read %s %s: %s")
read_json host undecodable = raised unicode_error

unfoldable pub require_object : Option Fields → String → Outcome Fields
require_object none message = raised (rejected message)
require_object (some fields) message = ok fields

pub read_object : Host → String → Outcome Fields
unfolding read_json require_object
read_object host path = do
  value ← read_json host (host.read_text path)
  require_object (as_object value) "%s %s must contain a JSON object"

abbrev pub cache_key : List ℕ
cache_key = codes "AXOLOTY_QUALIFICATION_CARRIER_SCENARIO:BOOL="

abbrev transport_prefix : List ℕ
transport_prefix = codes "AXOLOTY_TRANSPORT_DIR:"

-- `[line[len(key):] for line in cache_lines if line.startswith(key)]`
unfoldable pub values_of : List ℕ → List (List ℕ) → List (List ℕ)
unfolding after_prefix
values_of key [] = []
values_of key (line ∷ lines) = elim (after_prefix key line) [
  | none ↦ values_of key lines
  | some value ↦ value ∷ values_of key lines
]

-- `[line.split("=", 1)[1] for line in cache_lines if line.startswith(prefix) and "=" in line]`
transport_values : List (List ℕ) → List (List ℕ)
unfolding starts_with split_once
transport_values [] = []
transport_values (line ∷ lines) =
    if starts_with transport_prefix line
    then elim (split_once b'=' line).1 [
      | none ↦ transport_values lines
      | some value ↦ value ∷ transport_values lines
    ]
    else transport_values lines

read_lines : Read → Outcome (List (List ℕ))
unfolding splitlines
read_lines (text contents) = ok (splitlines (codes contents))
read_lines os_error = raised (rejected "cannot read configured CMake cache %s: %s")
read_lines undecodable = raised unicode_error

-- The one value of the key: `true` for ON, `false` for OFF.
scenario : List (List ℕ) → Outcome Bool
unfolding codes_eq
scenario (value ∷ []) =
    if codes_eq value (codes "ON")
    then ok true
    else if codes_eq value (codes "OFF")
    then ok false
    else raised (rejected "configured CMake cache must contain exactly one normalized BOOL")
scenario _ = raised (rejected "configured CMake cache must contain exactly one normalized BOOL")

selects_zenoh : List (List ℕ) → Bool
unfolding codes_eq path_name
selects_zenoh (value ∷ []) = codes_eq (path_name value) (codes "zenoh-pico")
selects_zenoh _ = false

-- An SDK-neutral `.o` or `.obj` basename.
unfoldable pub is_map_member : String → Bool
unfolding contains_text codes_eq ends_with path_name
is_map_member member =
    not (str_eq member "")
    && not (contains_text (codes "/") (codes member))
    && not (contains_text (codes "\\") (codes member))
    && codes_eq (path_name (codes member)) (codes member)
    && (ends_with (codes ".o") (codes member) || ends_with (codes ".obj") (codes member))

map_member : Json → Outcome Classification
unfolding is_map_member
map_member (str member) =
    if is_map_member member
    then ok (swift_configured member)
    else raised (rejected "%s must declare an SDK-neutral expectedMapMember .o or .obj basename")
map_member _ =
    raised (rejected "%s must declare an SDK-neutral expectedMapMember .o or .obj basename")

-- The inventory belongs to the selected application.
unfoldable pub names_app : Fields → Json → Bool
unfolding py_eq get_or_null nonempty_string
names_app inventory app_name =
    py_eq (get_or_null "schemaVersion" inventory) (int (pos 1))
    && py_eq (get_or_null "app" inventory) app_name
    && nonempty_string app_name

swift_policy : Host → String → Fields → Outcome Classification
unfolding read_object get_or_null names_app map_member
swift_policy host inventory_path manifest = do
  inventory ← read_object host inventory_path
  reject_if (not (names_app inventory (get_or_null "name" manifest)))
      "%s must be schemaVersion 1 for selected app %r"
  map_member (get_or_null "expectedMapMember" inventory)

abbrev pub field : String
field = "applicationStaticStorageBytes"

-- The application's storage ceiling decides; one that declares none is not configured.
ceiling_policy : Host → String → Fields → Fields → Outcome Classification
unfolding has_key is_positive_uint32 swift_policy get_or_null
ceiling_policy host inventory_path manifest capacities =
    if has_key field capacities
    then (do
      reject_if (not (is_positive_uint32 (get_or_null field capacities)))
          "%s capacities.%s must be a positive UInt32"
      swift_policy host inventory_path manifest)
    else ok swift_not_configured

swift_image : Host → String → String → Outcome Classification
unfolding read_object require_object ceiling_policy get_or_null
swift_image host manifest_path inventory_path = do
  manifest ← read_object host manifest_path
  capacities ←
      require_object (as_object (get_or_null "capacities" manifest))
        "%s capacities must be an object"
  ceiling_policy host inventory_path manifest capacities

carrier_image : List (List ℕ) → Outcome Classification
unfolding selects_zenoh transport_values
carrier_image lines =
    if selects_zenoh (transport_values lines)
    then ok c_only
    else raised (rejected "configured C-only carrier qualification image must select zenoh-pico")

pub classify : Host → String → String → String → Outcome Classification
unfolding read_lines scenario values_of carrier_image swift_image
classify host cache_path manifest_path inventory_path = do
  lines ← read_lines (host.read_text cache_path)
  on ← scenario (values_of cache_key lines)
  if on then carrier_image lines else swift_image host manifest_path inventory_path

-- `main`: the exit status. Python itself ends with 1 on an exception that is not caught.
unfoldable pub exit_status : Outcome Classification → ℕ
exit_status (ok c) = 0
exit_status (raised (rejected message)) = 2
exit_status (raised other) = 1
