-- ===== src/Release/Fields.antt =====
-- The tests on dictionaries and numbers that the checks of a size report share, in
-- Tools/validate-release-manifest.py.
use axoloty_embedded.Prelude.{
  ℕ, Bool, true, false, not, ◌&&◌, String, str_eq, none, some, List, [], ◌∷◌, ◌==◌, any, all,
}
use axoloty_embedded.Prelude.Int.{ℤ, pos, leb_ℤ}
use axoloty_embedded.Json.{
  Fields, Json, int, keys, has_key, bool, get_or_null, str, obj, get, size, values,
}
use axoloty_embedded.Prelude.Text.{is_hex, codes}

abbrev pub size_metrics : List String
size_metrics =
    "imageBytes" ∷ "flashTextBytes" ∷ "flashRodataBytes" ∷ "iramTextBytes" ∷ "initializedDataBytes"
    ∷ "dramBssBytes" ∷ "staticRamBytes" ∷ []

abbrev pub budget_metrics : List String
budget_metrics = "imageBytes" ∷ "flashTextBytes" ∷ "staticRamBytes" ∷ "dramBssBytes" ∷ []

abbrev pub runtime_metrics : List String
runtime_metrics = "minimumFreeHeapBytes" ∷ "stackRemainingBytes" ∷ []

abbrev pub max_safe_integer : ℕ
max_safe_integer = 9007199254740991

-- `type(value) is int and minimum <= value <= MAX_SAFE_INTEGER`
unfoldable pub safe_integer : ℕ → Json → Bool
safe_integer minimum (int n) = leb_ℤ (pos minimum) n && leb_ℤ n (pos max_safe_integer)
safe_integer minimum _ = false

-- `set(fs) <= names`
unfoldable pub keys_within : List String → Fields → Bool
keys_within names fs = all (λ k. any (str_eq k) names) (keys fs)

-- `set(fs) == names`
unfoldable pub keys_are : List String → Fields → Bool
keys_are names fs = keys_within names fs && all (λ name. has_key name fs) names

abbrev pub is_true : Json → Bool
is_true (bool b) = b
is_true _ = false

abbrev pub is_false : Json → Bool
is_false (bool b) = not b
is_false _ = false

abbrev pub is_bool : Json → Bool
is_bool (bool b) = true
is_bool _ = false

-- `type(value) is int and value == 1`
abbrev pub is_int_one : Json → Bool
is_int_one (int (pos n)) = n == 1
is_int_one _ = false

-- The value of an integer that was tested before.
abbrev pub int_of : Json → ℤ
int_of (int n) = n
int_of _ = pos 0

abbrev pub int_at : String → Fields → ℤ
int_at key fs = int_of (get_or_null key fs)

abbrev pub is_hex_string : ℕ → Json → Bool
is_hex_string n (str s) = is_hex n (codes s)
is_hex_string n _ = false

-- `isinstance(v, dict) and bool(v) and set(v) <= names and all(safe_integer(x, 1) …)`
unfoldable pub are_bounds : List String → Json → Bool
are_bounds names (obj fs) =
    not (size fs == 0) && keys_within names fs && all (safe_integer 1) (values fs)
are_bounds names _ = false

-- `d.get(key, default)`
abbrev pub get_or : Json → String → Fields → Json
get_or default key fs = elim (get key fs) [ none ↦ default | some v ↦ v ]
