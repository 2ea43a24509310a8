-- ===== src/Release/SizeReport.antt =====
-- `validate_size_report` of Tools/validate-release-manifest.py. `report` is the report where it is
-- an object; `profile` is null where the manifest names no profile.
use axoloty_embedded.Prelude.{
  ℕ, Bool, true, false, not, ◌&&◌, ◌||◌, String, str_eq, none, some, List, [], ◌∷◌, ◌++◌,
  if◌then◌else◌, leb, select, any, all, ◌+◌,
}
use axoloty_embedded.Prelude.Int.{ℤ, pos, negsuc, leb_ℤ, eq_ℤ, ◌+ℤ◌, ◌-ℤ◌}
use axoloty_embedded.Json.{
  Fields, Json, str, obj, has_key, get_or_null, int, py_eq, arr, is_null, field, null, end,
  as_array, nil, elements, is_object, one_of, values,
}
use axoloty_embedded.Release.Fields.{
  int_at, is_true, get_or, keys_are, safe_integer, max_safe_integer, is_bool, keys_within, is_false,
  budget_metrics, is_hex_string, size_metrics, are_bounds, is_int_one, runtime_metrics,
}
use axoloty_embedded.Release.Tree.{is_nonempty_string, Problems, problem_if, objects, field_of}

abbrev c_only_reason : Json
c_only_reason = str "configured C-only carrier qualification image"

abbrev network_variant_reason : Json
network_variant_reason =
    str "network-configured variant of an image whose budgets exclude the network stack"

-- `profile.get("configuration", "default") if isinstance(profile, dict) else None`
abbrev expected_name : Json → Json
expected_name (obj profile) = get_or (str "default") "configuration" profile
expected_name _ = null

abbrev valid_placeholder : Fields → Bool
valid_placeholder fs =
    not (has_key "networkPlaceholder" fs)
    || (is_true (get_or_null "networkPlaceholder" fs)
        && is_true (get_or_null "networkConfigured" fs))

unfoldable pub valid_configuration : Json → Json → Bool
valid_configuration (obj fs) profile =
    (keys_are ("name" ∷ "sdkconfigSha256" ∷ "networkConfigured" ∷ []) fs
      || keys_are ("name" ∷ "sdkconfigSha256" ∷ "networkConfigured" ∷ "networkPlaceholder" ∷ []) fs)
    && is_nonempty_string (get_or_null "name" fs)
    && py_eq (get_or_null "name" fs) (expected_name profile)
    && is_hex_string 64 (get_or_null "sdkconfigSha256" fs)
    && is_bool (get_or_null "networkConfigured" fs)
    && valid_placeholder fs
valid_configuration _ profile = false

-- The report names what the manifest names.
unfoldable pub names_same : Json → Json → Bool
names_same expected found = is_nonempty_string expected && py_eq found expected

unfoldable pub identity_problems : Fields → Fields → Problems
identity_problems report manifest =
    let same = λ (name : String) (expected : Json).
      problem_if (not (names_same expected (get_or_null name report)))
        "%s does not match manifest" in
    same "profile" (get_or_null "profile" manifest)
    ++ same "application" (get_or_null "application" manifest)
    ++ same "platform" (get_or_null "platform" manifest)
    ++ same "transport" (field_of "name" (get_or_null "transport" manifest))
    ++ same "coreRevision" (field_of "sha" (get_or_null "axoloty" manifest))

unfoldable pub valid_metrics : Json → Bool
valid_metrics (obj fs) = keys_are size_metrics fs && all (safe_integer 0) (values fs)
valid_metrics _ = false

-- The static RAM is the sum of its parts.
unfoldable pub static_ram_adds_up : Fields → Bool
static_ram_adds_up metrics =
    let total =
      int_at "iramTextBytes" metrics
      +ℤ int_at "initializedDataBytes" metrics
      +ℤ int_at "dramBssBytes" metrics in
    safe_integer 0 (int total) && eq_ℤ (int_at "staticRamBytes" metrics) total

unfoldable pub metrics_problems : Json → Problems
metrics_problems (obj metrics) =
    if valid_metrics (obj metrics)
    then problem_if (not (static_ram_adds_up metrics)) "static RAM does not match components"
    else "metrics are invalid" ∷ []
metrics_problems _ = "metrics are invalid" ∷ []

abbrev magnitude_of : ℤ → ℕ
magnitude_of (pos n) = n
magnitude_of (negsuc n) = n + 1

unfoldable pub valid_headroom : Fields → Bool
valid_headroom image = elim (get_or_null "partitionHeadroomBytes" image) [
  | int n ↦
      leb (magnitude_of n) max_safe_integer
      && eq_ℤ n (int_at "appPartitionBytes" image -ℤ int_at "bytes" image)
  | _ ↦ false
]

unfoldable pub valid_image : Json → Bool
valid_image (obj image) =
    keys_are ("bytes" ∷ "sha256" ∷ "appPartitionBytes" ∷ "partitionHeadroomBytes" ∷ []) image
    && safe_integer 1 (get_or_null "bytes" image)
    && safe_integer 1 (get_or_null "appPartitionBytes" image)
    && valid_headroom image
    && is_hex_string 64 (get_or_null "sha256" image)
valid_image _ = false

-- Against the image of the manifest, and against the image metric.
unfoldable pub image_problems : Json → Json → Fields → Problems
image_problems image metrics manifest =
    let own = get_or_null "image" manifest in
    if valid_image image
    then problem_if
        (not (
          py_eq (field_of "bytes" image) (field_of "byteCount" own)
          && py_eq (field_of "sha256" image) (field_of "sha256" own)))
        "image does not match manifest image"
      ++ problem_if
          (valid_metrics metrics
            && not (py_eq (field_of "imageBytes" metrics) (field_of "bytes" image)))
          "image metric does not match image bytes"
    else "image is invalid" ∷ []

abbrev or_blank_basis : Fields → Bool
or_blank_basis fs = not (has_key "basis" fs) || is_nonempty_string (get_or_null "basis" fs)

abbrev or_network_flag : Fields → Bool
or_network_flag fs = not (has_key "networkStack" fs) || is_bool (get_or_null "networkStack" fs)

valid_budgets : Json → Bool
valid_budgets (obj fs) =
    keys_within ("basis" ∷ "build" ∷ "runtime" ∷ "networkStack" ∷ []) fs
    && or_blank_basis fs
    && or_network_flag fs
valid_budgets _ = false

-- `profile.get("budgets", {}) if isinstance(profile, dict) else {}`
abbrev pub declared_budgets : Json → Json
declared_budgets (obj profile) = get_or (obj end) "budgets" profile
declared_budgets _ = obj end

abbrev declares : String → Json → Bool
declares name (obj fs) = has_key name fs
declares name _ = false

unfoldable pub budget_problems : Json → Problems
unfolding valid_budgets
budget_problems profile =
    let declared = declared_budgets profile in
    problem_if (declares "budgets" profile && not (valid_budgets declared))
      "profile budgets are invalid"
    ++ problem_if
        (declares "runtime" declared
          && not (are_bounds runtime_metrics (field_of "runtime" declared)))
        "profile runtime budgets are invalid"
    ++ problem_if
        (declares "build" declared && not (are_bounds budget_metrics (field_of "build" declared)))
        "profile build budgets are invalid"

-- A verdict of the report, as `json.dumps` compares it with the expected one.
unfoldable pub same_int : ℤ → Json → Bool
same_int n (int m) = eq_ℤ n m
same_int n _ = false

unfoldable pub same_bool : Bool → Json → Bool
same_bool true v = is_true v
same_bool false v = is_false v

abbrev same_text : String → Json → Bool
same_text s (str t) = str_eq t s
same_text s _ = false

unfoldable pub verdict_matches : Fields → Fields → String → Json → Bool
verdict_matches metrics build name (obj fs) =
    keys_are ("metric" ∷ "measured" ∷ "budget" ∷ "headroomBytes" ∷ "passed" ∷ []) fs
    && same_text name (get_or_null "metric" fs)
    && same_int (int_at name metrics) (get_or_null "measured" fs)
    && same_int (int_at name build) (get_or_null "budget" fs)
    && same_int (int_at name build -ℤ int_at name metrics) (get_or_null "headroomBytes" fs)
    && same_bool (leb_ℤ (int_at name metrics) (int_at name build)) (get_or_null "passed" fs)
verdict_matches metrics build name _ = false

unfoldable pub verdicts_match : Fields → Fields → List String → List Json → Bool
verdicts_match metrics build [] [] = true
verdicts_match metrics build (name ∷ names) (v ∷ vs) =
    verdict_matches metrics build name v && verdicts_match metrics build names vs
verdicts_match metrics build _ _ = false

unfoldable pub bounded_names : Fields → List String
bounded_names build = select (λ name. has_key name build) budget_metrics

unfoldable pub all_within : Fields → Fields → Bool
all_within metrics build =
    all (λ name. leb_ℤ (int_at name metrics) (int_at name build)) (bounded_names build)

abbrev same_test : Bool → Bool → Bool
same_test true b = b
same_test false b = not b

unfoldable pub verdicts_consistent : Json → Fields → Json → Fields → Bool
verdicts_consistent status enforcement (obj metrics) build =
    keys_are ("status" ∷ "results" ∷ []) enforcement
    && valid_metrics (obj metrics)
    && elim (as_array (get_or_null "results" enforcement)) [
      | none ↦ false
      | some results ↦ verdicts_match metrics build (bounded_names build) results
    ]
    && same_test (py_eq status (str "passed")) (all_within metrics build)
verdicts_consistent status enforcement _ build = false

-- The branch of an enforced report.
unfoldable pub enforced_problems : Json → Fields → Json → Json → Json → Problems
enforced_problems status enforcement metrics declared (obj budgets) =
    elim (keys_are ("basis" ∷ "build" ∷ []) budgets
      && are_bounds budget_metrics (get_or_null "build" budgets)) [
        | false ↦ "budgets are invalid" ∷ []
        | true ↦ elim (get_or_null "build" budgets) [
          | obj build ↦
              problem_if
                (not (
                  py_eq (obj build) (field_of "build" declared)
                  && py_eq (get_or_null "basis" budgets) (field_of "basis" declared)))
                "budgets do not match profile"
              ++ problem_if (not (verdicts_consistent status enforcement metrics build))
                  "verdicts are inconsistent"
          | _ ↦ "budgets are invalid" ∷ []
        ]
      ]
enforced_problems status enforcement metrics declared _ = "budgets are invalid" ∷ []

-- `profile["qualification"].get("requiredChecks", [])`, where that is an object.
abbrev requirements_of : Json → Json
requirements_of (obj q) = get_or (arr nil) "requiredChecks" q
requirements_of _ = arr nil

abbrev is_c_only_check : Fields → Bool
is_c_only_check r =
    py_eq (get_or_null "check" r) (str "c-only-carrier-scenario")
    && py_eq (get_or_null "artifact" r) (str "variant")

abbrev requires_c_only : Json → Bool
requires_c_only (arr xs) = any is_c_only_check (objects (elements xs))
requires_c_only _ = false

abbrev is_unqualified : Fields → Bool
is_unqualified manifest =
    py_eq (field_of "status" (get_or_null "qualification" manifest)) (str "unqualified")

reason_problems : Json → Fields → Json → Json → Problems
reason_problems reason manifest profile configuration =
    let declared = declared_budgets profile in
    if py_eq reason c_only_reason
    then problem_if
        (not (
          is_unqualified manifest
          && py_eq (field_of "transport" profile) (str "zenoh-pico")
          && requires_c_only (requirements_of (field_of "qualification" profile))))
        "C-only report requires the unqualified Zenoh qualification variant"
    else if py_eq reason network_variant_reason
    then problem_if
        (not (
          is_unqualified manifest
          && is_false (field_of "networkStack" declared)
          && is_object (field_of "build" declared)
          && is_true (field_of "networkConfigured" configuration)))
        "network variant report requires an unqualified manifest, a profile whose budgets declare networkStack false, and a network-configured image"
    else []

abbrev enforcement_is : Json → Json → Fields → Fields → Bool
enforcement_is status reason report enforcement =
    is_null (get_or_null "budgets" report)
    && py_eq (obj enforcement) (obj (field "status" status (field "reason" reason end)))

unfoldable pub unenforced_problems : Json → Fields → Fields → Fields → Json → Problems
unfolding reason_problems
unenforced_problems status enforcement report manifest profile =
    if py_eq status (str "not-applicable")
    then not_applicable_problems (get_or_null "reason" enforcement)
    else (problem_if
          (not (
            enforcement_is status (str "the profile declares no build budgets") report enforcement))
          "enforcement is inconsistent"
        ++ problem_if (not (is_null (field_of "build" (declared_budgets profile))))
            "not-configured contradicts profile budgets")
  where
    not_applicable_problems : Json → Problems
    not_applicable_problems reason =
        problem_if (not (one_of reason (c_only_reason ∷ network_variant_reason ∷ [])))
          "not-applicable reason is not recognized"
        ++ problem_if (not (enforcement_is status reason report enforcement))
            "enforcement is inconsistent"
        ++ reason_problems reason manifest profile (get_or_null "configuration" report)

unfoldable pub enforcement_problems : Fields → Fields → Json → Problems
enforcement_problems report manifest profile = elim (get_or_null "enforcement" report) [
  | obj enforcement ↦
      let status = get_or_null "status" enforcement in
      problem_if
        (not (one_of status (str "passed" ∷ str "not-applicable" ∷ str "not-configured" ∷ [])))
        "enforcement status is invalid"
      ++ budget_problems profile
      ++ (if one_of status (str "passed" ∷ str "failed" ∷ [])
          then enforced_problems status enforcement (get_or_null "metrics" report)
              (declared_budgets profile) (get_or_null "budgets" report)
          else if one_of status (str "not-applicable" ∷ str "not-configured" ∷ [])
          then unenforced_problems status enforcement report manifest profile
          else [])
  | _ ↦ "resources.report.enforcement must be an object" ∷ []
]

abbrev report_fields : List String
report_fields =
    "schemaVersion" ∷ "kind" ∷ "profile" ∷ "application" ∷ "platform" ∷ "transport" ∷ "coreRevision"
    ∷ "configuration" ∷ "metrics" ∷ "image" ∷ "budgets" ∷ "enforcement" ∷ []

unfoldable pub validate_size_report : Json → Fields → Json → Problems
validate_size_report (obj report) manifest profile =
    problem_if (not (keys_are report_fields report)) "has invalid fields"
    ++ problem_if (not (valid_configuration (get_or_null "configuration" report) profile))
        "configuration is invalid or does not match profile"
    ++ problem_if
        (not (
          is_int_one (get_or_null "schemaVersion" report)
          && py_eq (get_or_null "kind" report) (str "build-size")))
        "has invalid schema or kind"
    ++ identity_problems report manifest
    ++ metrics_problems (get_or_null "metrics" report)
    ++ image_problems (get_or_null "image" report) (get_or_null "metrics" report) manifest
    ++ enforcement_problems report manifest profile
validate_size_report _ manifest profile = "resources.report must be an object" ∷ []
