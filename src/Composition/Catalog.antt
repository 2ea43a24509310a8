-- ===== src/Composition/Catalog.antt =====
-- Tools/capability_catalog.py, and `ordered_function_fields` and `field_mask` of
-- Tools/validate-composition.py.
pub mod Mask
use native.Mathlib.Nat.{pow-suc}
use axoloty_embedded.Prelude.{
  ℕ, ◌+◌, ◌*◌, ◌^◌, ◌≡◌, ◌<◌, refl, Bool, String, str_eq, List, [], ◌∷◌, ◌++◌, if◌then◌else◌, any,
  map, length, arith, Bool-cases, inl, inr,
}

-- A capability: its name, its macro and its function fields.
pub record Capability : Type 0 where
  pub name : String
  pub macro : String
  pub functions : List String

abbrev capability : String → String → List String → Capability
capability name macro functions = record { name = name; macro = macro; functions = functions }

abbrev pub platform_catalog : List Capability
platform_catalog =
    capability "clock.monotonicMicroseconds" "AXOLOTY_PLATFORM_CAP_CLOCK"
      ("clock_now_microseconds" ∷ [])
    ∷ capability "scheduler.delayTicks" "AXOLOTY_PLATFORM_CAP_DELAY" ("delay_ticks" ∷ [])
    ∷ capability "device.restart" "AXOLOTY_PLATFORM_CAP_RESTART" ("restart" ∷ [])
    ∷ capability "console.write" "AXOLOTY_PLATFORM_CAP_LOG" ("write_log" ∷ [])
    ∷ capability "diagnostics.heap" "AXOLOTY_PLATFORM_CAP_DIAGNOSTICS"
        ("heap_trace_begin" ∷ "heap_trace_end" ∷ [])
    ∷ capability "diagnostics.stack" "AXOLOTY_PLATFORM_CAP_DIAGNOSTICS" ("read_metrics" ∷ [])
    ∷ capability "network.configuration" "AXOLOTY_PLATFORM_CAP_NETWORK_CONFIG"
        ("network_configured" ∷ "network_role" ∷ "network_scenario" ∷ [])
    ∷ capability "network.bootstrap" "AXOLOTY_PLATFORM_CAP_NETWORK_BOOTSTRAP"
        ("network_prepare" ∷ "network_cleanup" ∷ [])
    ∷ capability "network.reconnect" "AXOLOTY_PLATFORM_CAP_NETWORK_RECONNECT"
        ("network_reconnect" ∷ [])
    ∷ capability "device.displayName" "AXOLOTY_PLATFORM_CAP_DEVICE_NAME"
        ("device_display_name" ∷ [])
    ∷ []

abbrev pub carrier_catalog : List Capability
carrier_catalog =
    capability "lastWill" "AXOLOTY_CARRIER_CAP_LAST_WILL"
      ("supports_last_will" ∷ "configure_last_will" ∷ [])
    ∷ capability "connect" "AXOLOTY_CARRIER_CAP_CONNECT" ("connect" ∷ [])
    ∷ capability "subscribe" "AXOLOTY_CARRIER_CAP_SUBSCRIBE" ("subscribe" ∷ [])
    ∷ capability "unsubscribe" "AXOLOTY_CARRIER_CAP_UNSUBSCRIBE" ("unsubscribe" ∷ [])
    ∷ capability "publish" "AXOLOTY_CARRIER_CAP_PUBLISH" ("publish" ∷ [])
    ∷ capability "poll" "AXOLOTY_CARRIER_CAP_POLL" ("poll_one_event" ∷ [])
    ∷ capability "reconnect" "AXOLOTY_CARRIER_CAP_RECONNECT" ("wait_for_reconnect" ∷ [])
    ∷ capability "disconnect" "AXOLOTY_CARRIER_CAP_DISCONNECT" ("disconnect" ∷ [])
    ∷ capability "networkProbe" "AXOLOTY_CARRIER_CAP_NETWORK_PROBE"
        ("copy_probe_topic" ∷ "copy_probe_payload" ∷ [])
    ∷ []

abbrev pub names_of : List Capability → List String
names_of catalog = map (λ c. c.name) catalog

abbrev pub platform_names : List String
platform_names = names_of platform_catalog

abbrev pub carrier_names : List String
carrier_names = names_of carrier_catalog

-- `dict.fromkeys`: each field once, at its first place.
add_fields : List String → List String → List String
add_fields seen [] = seen
add_fields seen (name ∷ names) =
    add_fields (if any (str_eq name) seen then seen else seen ++ name ∷ []) names

fields_from : List String → List Capability → List String
unfolding add_fields
fields_from seen [] = seen
fields_from seen (c ∷ catalog) = fields_from (add_fields seen c.functions) catalog

unfoldable pub ordered_function_fields : List Capability → List String
unfolding fields_from
ordered_function_fields catalog = fields_from [] catalog

-- `catalog[name][1]`, where the name is known.
unfoldable pub functions_of : List Capability → String → List String
functions_of [] name = []
functions_of (c ∷ catalog) name =
    let rest = functions_of catalog name in if str_eq c.name name then c.functions else rest

abbrev pub is_required : List Capability → List String → String → Bool
is_required catalog names function =
    any (λ name. any (str_eq function) (functions_of catalog name)) names

-- `sum(1 << index for index, field in enumerate(ordered_fields) if field in required)`
unfoldable pub mask_of : (String → Bool) → List String → ℕ
mask_of required [] = 0
mask_of required (function ∷ rest) =
    (if required function then 1 else 0) + 2 * mask_of required rest

unfoldable pub field_mask : List Capability → List String → ℕ
field_mask catalog names = mask_of (is_required catalog names) (ordered_function_fields catalog)

heap_mask_run : field_mask platform_catalog ("diagnostics.heap" ∷ "device.restart" ∷ []) ≡ 52
unfolding field_mask ordered_function_fields functions_of mask_of
heap_mask_run = refl

mask_of-lt :
    (required : String → Bool) (names : List String) → mask_of required names < 2 ^ length names
unfolding mask_of
mask_of-lt required [] = omega arith
mask_of-lt required (function ∷ names) = elim (Bool-cases (required function)) [
  | inl e ↦ rw e (omega (arith, mask_of-lt required names, pow-suc 2 (length names)))
  | inr e ↦ rw e (omega (arith, mask_of-lt required names, pow-suc 2 (length names)))
]

-- The mask of any capabilities has no bit beyond the function fields of the catalog.
pub field_mask-lt :
    (catalog : List Capability) (names : List String)
    → field_mask catalog names < 2 ^ length (ordered_function_fields catalog)
unfolding field_mask
field_mask-lt catalog names =
    mask_of-lt (is_required catalog names) (ordered_function_fields catalog)
