-- ===== src/Composition.antt =====
-- Tools/validate-composition.py: whether a selection of application, platform and transport fits
-- together. Sets are lists of texts.
pub mod Catalog
pub mod Suits
pub mod Correct
mod Samples
use axoloty_embedded.Prelude.{
  ℕ, ◌≡◌, Bool, true, false, not, ◌&&◌, ◌||◌, String, str_eq, Option, none, some, List, [], ◌∷◌,
  ◌++◌, if◌then◌else◌, any, all, select, string_append,
}
use axoloty_embedded.Prelude.Int.{ℤ, pos, ltb_ℤ}
use axoloty_embedded.Prelude.Text.{codes, ends_with, starts_with}
use axoloty_embedded.Outcome.{
  Outcome, ok, raised, rejected, ◌>>=◌, ◌>>◌, reject_if, unicode_error, attribute_error,
}
use axoloty_embedded.Json.{
  get_or_null, Json, Fields, obj, str, arr, is_positive_uint32, has_key, get, py_eq, elements, int,
  cons, nonempty_string,
}
use axoloty_embedded.Host.{Read, text, os_error, undecodable}
use axoloty_embedded.Release.Fields.{keys_are, int_at, keys_within}
use axoloty_embedded.Composition.Catalog.{platform_names, carrier_names}
use axoloty_embedded.Json.Load.{load_plain}
use axoloty_embedded.Release.Tree.{in_set}

-- The files of the repository, and what Python's pathlib finds among them: parameters.
pub record Repository : Type 0 where
  pub read_text : String → Read
  pub parse_json : String → Option Json
  -- `(axis / source).resolve()` lies below the resolved axis, and is a file
  pub holds_source : String → String → Bool
  -- the files of `rglob("*.swift")`, relative to the axis
  pub swift_files : String → List String

composition_object : Json → Outcome Fields
composition_object (obj fs) = ok fs
composition_object _ = raised (rejected "%s must contain a JSON object")

composition_document : Option Json → Outcome Fields
unfolding composition_object
composition_document none = raised (rejected "cannot read %s: %s")
composition_document (some document) = composition_object (load_plain document)

composition_text : Repository → Read → Outcome Fields
unfolding composition_document
composition_text repository (text contents) = composition_document (repository.parse_json contents)
composition_text repository os_error = raised (rejected "cannot read %s: %s")
composition_text repository undecodable = raised unicode_error

unfoldable pub read_manifest : Repository → String → Outcome Fields
unfolding composition_text
read_manifest repository path = composition_text repository (repository.read_text path)

abbrev pub listed_in : List String → String → Bool
listed_in names name = any (str_eq name) names

-- The items of a list of texts.
unfoldable pub texts_of : List Json → Option (List String)
texts_of [] = some []
texts_of (str s ∷ vs) = elim (texts_of vs) [ none ↦ none | some ss ↦ some (s ∷ ss) ]
texts_of (v ∷ vs) = none

unfoldable pub are_distinct : List String → Bool
are_distinct [] = true
are_distinct (s ∷ ss) = not (listed_in ss s) && are_distinct ss

distinct_texts : Option (List String) → Outcome (List String)
distinct_texts none = raised (rejected "%s must be an array of capability names")
distinct_texts (some names) =
    if are_distinct names then ok names else raised (rejected "%s contains a duplicate capability")

unfoldable pub string_set : Json → Outcome (List String)
unfolding distinct_texts
string_set (arr xs) = distinct_texts (texts_of (elements xs))
string_set _ = raised (rejected "%s must be an array of capability names")

-- `required - available`
unfoldable pub missing_from : List String → List String → List String
missing_from available required = select (λ name. not (listed_in available name)) required

abbrev pub is_empty : List String → Bool
is_empty [] = true
is_empty (s ∷ ss) = false

-- What an application asks for.
pub record Requirements : Type 0 where
  pub platform : List String
  pub carrier : List String
  pub capacities : Fields

abbrev pub require_dict : Json → String → Outcome Fields
require_dict (obj fs) message = ok fs
require_dict _ message = raised (rejected message)

unfoldable pub all_uint32 : List String → Fields → Bool
all_uint32 names fs = all (λ name. is_positive_uint32 (get_or_null name fs)) names

abbrev pub capacity_names : List String
capacity_names = "maxTopicLength" ∷ "maxPayloadSize" ∷ "applicationStateBytes" ∷ []

abbrev static_bytes_fine : Fields → Bool
static_bytes_fine fs =
    not (has_key "applicationStaticStorageBytes" fs)
    || is_positive_uint32 (get_or_null "applicationStaticStorageBytes" fs)

unfoldable pub app_requirements : Fields → Outcome Requirements
app_requirements manifest = do
  requirements ←
      require_dict (get_or_null "requirements" manifest)
        "%s requirements must declare platform and carrier arrays"
  platform ← string_set (get_or_null "platform" requirements)
  carrier ← string_set (get_or_null "carrier" requirements)
  reject_if (not (is_empty (missing_from platform_names platform)))
      "unknown platform capability name: %s"
  reject_if (not (is_empty (missing_from carrier_names carrier)))
      "unknown carrier capability name: %s"
  capacities ← require_dict (get_or_null "capacities" manifest) "%s capacities must be an object"
  reject_if (not (all_uint32 capacity_names capacities))
      "%s capacities.%s must be a positive UInt32"
  reject_if (not (static_bytes_fine capacities))
      "%s capacities.applicationStaticStorageBytes must be a positive UInt32"
  ok (record { platform = platform; carrier = carrier; capacities = capacities })

abbrev pub carrier_limit_names : List String
carrier_limit_names = "maxTopicLength" ∷ "maxPayloadSize" ∷ []

unfoldable pub transport_limits : Fields → Outcome Fields
transport_limits manifest = do
  limits ← require_dict (get_or_null "limits" manifest) "%s limits must declare exactly %s"
  reject_if (not (keys_are carrier_limit_names limits)) "%s limits must declare exactly %s"
  reject_if (not (all_uint32 carrier_limit_names limits)) "%s limits.%s must be a positive UInt32"
  ok limits

unfoldable pub within_limits : Fields → Fields → Bool
within_limits capacities limits =
    all (λ name. not (ltb_ℤ (int_at name limits) (int_at name capacities))) carrier_limit_names

unfoldable pub check_capacities : Fields → Fields → Outcome (Unit {0})
check_capacities capacities limits =
    reject_if (not (within_limits capacities limits))
      "application capacities.%s %s exceeds the fixed ceiling %s of transport '%s'"

unfoldable pub check_requirements : List String → List String → Outcome (Unit {0})
check_requirements required available =
    reject_if (not (is_empty (missing_from available required)))
      "%s '%s' does not provide required capability: %s"

-- The profile's own fields.
abbrev profile_keys : List String
profile_keys =
    "schemaVersion" ∷ "name" ∷ "application" ∷ "platform" ∷ "transport" ∷ "board" ∷ "configuration"
    ∷ "core" ∷ "budgets" ∷ "qualification" ∷ []

abbrev profile_schema : Fields → Json
profile_schema profile = elim (get "schemaVersion" profile) [ none ↦ int (pos 1) | some v ↦ v ]

unfoldable pub check_profile : Fields → Outcome (Unit {0})
check_profile profile = do
  reject_if (not (py_eq (profile_schema profile) (int (pos 1)))) "unsupported profile schema in %s"
  reject_if (not (keys_within profile_keys profile)) "%s has unknown top-level key: %s"
  reject_if
      (not (
        all (λ name. nonempty_string (get_or_null name profile))
          ("application" ∷ "platform" ∷ "transport" ∷ [])))
      "%s must select exactly one %s"

abbrev string_at : String → Fields → String
string_at name fs = elim (get_or_null name fs) [ str s ↦ s | _ ↦ "" ]

-- `/` of pathlib on POSIX paths: an absolute right side replaces the left.
unfoldable pub path_join : String → String → String
path_join directory name =
    if starts_with (codes "/") (codes name)
    then name
    else if str_eq directory "" || ends_with (codes "/") (codes directory)
    then string_append directory name
    else string_append directory (string_append "/" name)

-- The directory of an axis, and its manifest.
abbrev pub axis_directory : String → String → String → String
axis_directory root axis selected = path_join (path_join root axis) selected

unfoldable pub axis_manifest : Repository → String → String → Json → Outcome Fields
axis_manifest repository directory filename selected = do
  manifest ← read_manifest repository (path_join directory filename)
  reject_if (not (py_eq (get_or_null "schemaVersion" manifest) (int (pos 1))))
      "unsupported %s manifest schema: %s"
  reject_if (not (py_eq (get_or_null "name" manifest) selected))
      "%s name does not match selected %s '%s'"
  ok manifest

unfoldable pub check_wire_profile : Fields → Outcome (Unit {0})
check_wire_profile transport = do
  known ← in_set (get_or_null "wireProfile" transport) (str "coaty3JSON" ∷ str "axoloty1CBOR" ∷ [])
  reject_if (not known) "transport.json must declare exactly one wireProfile, one of %s: %r"

-- `lock.get("core", lock)`
abbrev locked_core : Fields → Json
locked_core lock = elim (get "core" lock) [ none ↦ obj lock | some v ↦ v ]

check_revision : Json → Json → Outcome (Unit {0})
check_revision (obj core) (obj locked) =
    reject_if (not (py_eq (get_or_null "revision" core) (get_or_null "revision" locked)))
      "profile Core revision does not match axoloty-core.lock.json"
check_revision (obj core) _ = raised attribute_error
check_revision _ locked =
    raised (rejected "profile Core revision does not match axoloty-core.lock.json")

unfoldable pub check_core : Repository → String → Fields → Outcome (Unit {0})
unfolding check_revision
check_core repository root profile = do
  lock ← read_manifest repository (path_join root "axoloty-core.lock.json")
  check_revision (get_or_null "core" profile) (locked_core lock)

is_swift : Repository → String → Json → Bool
is_swift repository directory (str source) = ends_with (codes ".swift") (codes source)
is_swift repository directory _ = false

source_held : Repository → String → Json → Bool
source_held repository directory (str source) = repository.holds_source directory source
source_held repository directory _ = false

unfoldable pub check_each_source : Repository → String → List Json → Outcome (Unit {0})
unfolding is_swift source_held
check_each_source repository directory [] = ok tt
check_each_source repository directory (source ∷ sources) = do
  reject_if (not (is_swift repository directory source))
      "application source must be a Swift path: %r"
  reject_if (not (source_held repository directory source))
      "application source is missing or escapes its axis: %s"
  check_each_source repository directory sources

abbrev or_nothing : Option (List String) → List String
or_nothing none = []
or_nothing (some names) = names

unfoldable pub check_sources : Repository → String → Json → Outcome (Unit {0})
check_sources repository directory (arr (cons source sources)) = do
  check_each_source repository directory (source ∷ elements sources)
  let listed = or_nothing (texts_of (source ∷ elements sources))
  let discovered = repository.swift_files directory
  reject_if
      (not (is_empty (missing_from listed discovered) && is_empty (missing_from discovered listed)))
      "app.json source inventory differs from the application tree (%s)"
check_sources repository directory _ =
    raised (rejected "app.json sources must be a non-empty array")

-- The manifests of the selection, which the checks behind them share.
unfoldable pub check_selection :
    Repository → String → Fields → Fields → Fields → Outcome Requirements
check_selection repository directory application platform transport = do
  required ← app_requirements application
  platform_available ← string_set (get_or_null "capabilities" platform)
  carrier_available ← string_set (get_or_null "capabilities" transport)
  reject_if (not (is_empty (missing_from platform_names platform_available)))
      "unknown platform capability name: %s"
  reject_if (not (is_empty (missing_from carrier_names carrier_available)))
      "unknown carrier capability name: %s"
  limits ← transport_limits transport
  check_capacities required.capacities limits
  check_requirements required.platform platform_available
  check_requirements required.carrier carrier_available
  check_sources repository directory (get_or_null "sources" application)
  ok required

unfoldable pub validate_composition : Repository → String → String → Outcome Requirements
validate_composition repository root profile_path = do
  profile ← read_manifest repository profile_path
  check_profile profile
  let directory = axis_directory root "Applications" (string_at "application" profile)
  application ← axis_manifest repository directory "app.json" (get_or_null "application" profile)
  platform ←
      axis_manifest repository (axis_directory root "Platforms" (string_at "platform" profile))
        "platform.json" (get_or_null "platform" profile)
  transport ←
      axis_manifest repository (axis_directory root "Transports" (string_at "transport" profile))
        "transport.json" (get_or_null "transport" profile)
  check_wire_profile transport
  check_core repository root profile
  check_selection repository directory application platform transport

-- `load_composition`: a selection, or one application manifest alone.
unfoldable pub load_composition :
    Repository → String → Option String → Option String → Outcome Requirements
load_composition repository root profile_path (some manifest_path) = do
  manifest ← read_manifest repository manifest_path
  app_requirements manifest
load_composition repository root (some profile_path) none =
    validate_composition repository root profile_path
load_composition repository root none none =
    raised (rejected "--profile or --app-manifest is required")
