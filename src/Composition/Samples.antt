-- ===== src/Composition/Samples.antt =====
-- A small selection that is valid, and one whose payload the transport cannot carry.
use axoloty_embedded.Prelude.{
  ℕ, ◌≡◌, refl, true, String, str_eq, Option, none, some, List, [], ◌∷◌, if◌then◌else◌, ◌<◌, ◌^◌,
  length,
}
use axoloty_embedded.Prelude.Int.{pos}
use axoloty_embedded.Composition.Correct.{Fits, validate_composition-Fits}
use axoloty_embedded.Outcome.{ok, raised, rejected}
use axoloty_embedded.Json.{Fields, Json, Items, field, nil, end}
use axoloty_embedded.Composition.{
  Repository, validate_composition, Requirements, obj, text, int, str, cons, arr,
}
use axoloty_embedded.Composition.Catalog.{field_mask, platform_catalog, ordered_function_fields}
use axoloty_embedded.Composition.Catalog.Mask.{IsMask, field_mask-IsMask}

abbrev names : List String → Json
names ss = arr (go ss)
  where
    go : List String → Items
    go [] = nil
    go (s ∷ rest) = cons (str s) (go rest)

abbrev capacities : ℕ → Fields
capacities payload =
    field "maxTopicLength" (int (pos 64)) (
      field "maxPayloadSize" (int (pos payload))
        (field "applicationStateBytes" (int (pos 128)) end))

abbrev application_document : ℕ → Json
application_document payload = obj (
    field "schemaVersion" (int (pos 1)) (
      field "name" (str "a") (
        field "requirements"
          (obj (
            field "platform" (names ("console.write" ∷ []))
              (field "carrier" (names ("connect" ∷ "publish" ∷ [])) end)))
          (field "capacities" (obj (capacities payload))
            (field "sources" (names ("a.swift" ∷ [])) end)))))

abbrev platform_document : Json
platform_document = obj (
    field "schemaVersion" (int (pos 1))
      (field "name" (str "p") (field "capabilities" (names ("console.write" ∷ [])) end)))

abbrev transport_document : Json
transport_document = obj (
    field "schemaVersion" (int (pos 1)) (
      field "name" (str "t") (
        field "wireProfile" (str "coaty3JSON") (
          field "capabilities" (names ("publish" ∷ "poll" ∷ "connect" ∷ [])) (
            field "limits"
              (obj (
                field "maxTopicLength" (int (pos 128))
                  (field "maxPayloadSize" (int (pos 256)) end)))
              end)))))

abbrev core_document : Json
core_document = obj (field "revision" (str "r") end)

abbrev profile_document : Json
profile_document = obj (
    field "application" (str "a")
      (field "platform" (str "p") (field "transport" (str "t") (field "core" core_document end))))

abbrev parses : ℕ → String → Option Json
parses payload path =
    if str_eq path "profile.json"
    then some profile_document
    else if str_eq path "Applications/a/app.json"
    then some (application_document payload)
    else if str_eq path "Platforms/p/platform.json"
    then some platform_document
    else if str_eq path "Transports/t/transport.json"
    then some transport_document
    else if str_eq path "axoloty-core.lock.json"
    then some core_document
    else none

abbrev repository : ℕ → Repository
repository payload = record {
  read_text = λ path. text path;
  parse_json = parses payload;
  holds_source = λ directory source. true;
  swift_files = λ directory. "a.swift" ∷ [];
}

abbrev requirements : Requirements
requirements = record {
  platform = "console.write" ∷ [];
  carrier = "connect" ∷ "publish" ∷ [];
  capacities = capacities 200;
}

valid_run : validate_composition (repository 200) "" "profile.json" ≡ ok requirements
unfolding axoloty_embedded.Composition.path_join axoloty_embedded.Composition.read_manifest
    axoloty_embedded.Composition.texts_of axoloty_embedded.Composition.are_distinct
    axoloty_embedded.Composition.string_set axoloty_embedded.Composition.missing_from
    axoloty_embedded.Composition.all_uint32 axoloty_embedded.Composition.app_requirements
    axoloty_embedded.Composition.transport_limits axoloty_embedded.Composition.within_limits
    axoloty_embedded.Composition.check_capacities axoloty_embedded.Composition.check_requirements
    axoloty_embedded.Composition.check_profile axoloty_embedded.Composition.axis_manifest
    axoloty_embedded.Composition.check_wire_profile axoloty_embedded.Composition.check_core
    axoloty_embedded.Composition.check_each_source axoloty_embedded.Composition.check_sources
    axoloty_embedded.Composition.check_selection axoloty_embedded.Composition.validate_composition
    axoloty_embedded.Composition.load_composition axoloty_embedded.Release.Fields.safe_integer
    axoloty_embedded.Release.Fields.keys_within axoloty_embedded.Release.Fields.keys_are
    axoloty_embedded.Release.Fields.are_bounds axoloty_embedded.Json.get_or_null
    axoloty_embedded.Json.has_key axoloty_embedded.Json.nonempty_string
    axoloty_embedded.Json.is_positive_uint32 axoloty_embedded.Json.truth
    axoloty_embedded.Json.is_hashable axoloty_embedded.Json.one_of axoloty_embedded.Json.get
    axoloty_embedded.Json.size axoloty_embedded.Json.py_eq axoloty_embedded.Json.items_eq
    axoloty_embedded.Json.fields_in axoloty_embedded.Json.Load.put
    axoloty_embedded.Json.Load.unique_object axoloty_embedded.Json.Load.last_wins
    axoloty_embedded.Json.Load.keys_distinct axoloty_embedded.Json.Load.load_unique
    axoloty_embedded.Json.Load.load_unique_items axoloty_embedded.Json.Load.load_unique_fields
    axoloty_embedded.Json.Load.load_plain axoloty_embedded.Json.Load.load_plain_items
    axoloty_embedded.Json.Load.load_plain_fields axoloty_embedded.Json.Load.well_keyed
    axoloty_embedded.Json.Load.well_keyed_items axoloty_embedded.Json.Load.well_keyed_fields
    axoloty_embedded.Prelude.Text.codes_eq axoloty_embedded.Prelude.Text.after_prefix
    axoloty_embedded.Prelude.Text.starts_with axoloty_embedded.Prelude.Text.ends_with
    axoloty_embedded.Prelude.Text.contains_text axoloty_embedded.Prelude.Text.split_once
    axoloty_embedded.Prelude.Text.split_on axoloty_embedded.Prelude.Text.is_space
    axoloty_embedded.Prelude.Text.strip_left axoloty_embedded.Prelude.Text.strip
    axoloty_embedded.Prelude.Text.lower axoloty_embedded.Prelude.Text.is_line_break
    axoloty_embedded.Prelude.Text.split_breaks axoloty_embedded.Prelude.Text.splitlines
    axoloty_embedded.Prelude.Text.is_hex_digit axoloty_embedded.Prelude.Text.is_hex
    axoloty_embedded.Release.Tree.load axoloty_embedded.Release.Tree.is_nonempty_string
    axoloty_embedded.Release.Tree.in_set axoloty_embedded.Release.Tree.join
valid_run = refl

too_large_run :
    validate_composition (repository 300) "" "profile.json"
    ≡ raised
        (rejected "application capacities.%s %s exceeds the fixed ceiling %s of transport '%s'")
unfolding axoloty_embedded.Composition.path_join axoloty_embedded.Composition.read_manifest
    axoloty_embedded.Composition.texts_of axoloty_embedded.Composition.are_distinct
    axoloty_embedded.Composition.string_set axoloty_embedded.Composition.missing_from
    axoloty_embedded.Composition.all_uint32 axoloty_embedded.Composition.app_requirements
    axoloty_embedded.Composition.transport_limits axoloty_embedded.Composition.within_limits
    axoloty_embedded.Composition.check_capacities axoloty_embedded.Composition.check_requirements
    axoloty_embedded.Composition.check_profile axoloty_embedded.Composition.axis_manifest
    axoloty_embedded.Composition.check_wire_profile axoloty_embedded.Composition.check_core
    axoloty_embedded.Composition.check_each_source axoloty_embedded.Composition.check_sources
    axoloty_embedded.Composition.check_selection axoloty_embedded.Composition.validate_composition
    axoloty_embedded.Composition.load_composition axoloty_embedded.Release.Fields.safe_integer
    axoloty_embedded.Release.Fields.keys_within axoloty_embedded.Release.Fields.keys_are
    axoloty_embedded.Release.Fields.are_bounds axoloty_embedded.Json.get_or_null
    axoloty_embedded.Json.has_key axoloty_embedded.Json.nonempty_string
    axoloty_embedded.Json.is_positive_uint32 axoloty_embedded.Json.truth
    axoloty_embedded.Json.is_hashable axoloty_embedded.Json.one_of axoloty_embedded.Json.get
    axoloty_embedded.Json.size axoloty_embedded.Json.py_eq axoloty_embedded.Json.items_eq
    axoloty_embedded.Json.fields_in axoloty_embedded.Json.Load.put
    axoloty_embedded.Json.Load.unique_object axoloty_embedded.Json.Load.last_wins
    axoloty_embedded.Json.Load.keys_distinct axoloty_embedded.Json.Load.load_unique
    axoloty_embedded.Json.Load.load_unique_items axoloty_embedded.Json.Load.load_unique_fields
    axoloty_embedded.Json.Load.load_plain axoloty_embedded.Json.Load.load_plain_items
    axoloty_embedded.Json.Load.load_plain_fields axoloty_embedded.Json.Load.well_keyed
    axoloty_embedded.Json.Load.well_keyed_items axoloty_embedded.Json.Load.well_keyed_fields
    axoloty_embedded.Prelude.Text.codes_eq axoloty_embedded.Prelude.Text.after_prefix
    axoloty_embedded.Prelude.Text.starts_with axoloty_embedded.Prelude.Text.ends_with
    axoloty_embedded.Prelude.Text.contains_text axoloty_embedded.Prelude.Text.split_once
    axoloty_embedded.Prelude.Text.split_on axoloty_embedded.Prelude.Text.is_space
    axoloty_embedded.Prelude.Text.strip_left axoloty_embedded.Prelude.Text.strip
    axoloty_embedded.Prelude.Text.lower axoloty_embedded.Prelude.Text.is_line_break
    axoloty_embedded.Prelude.Text.split_breaks axoloty_embedded.Prelude.Text.splitlines
    axoloty_embedded.Prelude.Text.is_hex_digit axoloty_embedded.Prelude.Text.is_hex
    axoloty_embedded.Release.Tree.load axoloty_embedded.Release.Tree.is_nonempty_string
    axoloty_embedded.Release.Tree.in_set axoloty_embedded.Release.Tree.join
too_large_run = refl

validate_composition-Fits_example : Fits (repository 200) "" "profile.json" requirements
validate_composition-Fits_example =
    validate_composition-Fits (repository 200) "" "profile.json" requirements valid_run

field_mask-IsMask_example :
    IsMask platform_catalog
      ("diagnostics.heap" ∷ [])
      (ordered_function_fields platform_catalog)
      (field_mask platform_catalog ("diagnostics.heap" ∷ []))
field_mask-IsMask_example =
    field_mask-IsMask platform_catalog ("diagnostics.heap" ∷ [])
      (refl, (refl, (refl, (refl, (refl, (refl, (refl, (refl, (refl, (refl, tt))))))))))
