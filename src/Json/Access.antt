-- ===== src/Json/Access.antt =====
-- `dict.get`, `in`, `isinstance`, truth and hashing.
use axoloty_embedded.Prelude.{
  refl, zero, ◌≡◌, Bool, true, false, ◌&&◌, ◌||◌, not, String, str_eq, Option, none, some, List,
  ltb, leb, ◌==◌, any, arith, ℕ, ◌<◌, ◌^◌,
}
use axoloty_embedded.Prelude.Int.{ℤ, pos, negsuc}
use axoloty_embedded.Json.Value.{
  Json, null, bool, int, float, str, arr, obj, nil, Fields, end, elements,
}
use axoloty_embedded.Json.Equality.{get, py_eq, size}

-- `isinstance(value, dict)`, `list`, `str`; `None` of Python is `none` for a missing value.
abbrev pub as_object : Json → Option Fields
as_object (obj fs) = some fs
as_object _ = none

abbrev pub as_array : Json → Option (List Json)
as_array (arr xs) = some (elements xs)
as_array _ = none

abbrev pub as_string : Json → Option String
as_string (str s) = some s
as_string _ = none

abbrev pub is_object : Json → Bool
is_object (obj fs) = true
is_object _ = false

abbrev pub is_string : Json → Bool
is_string (str s) = true
is_string _ = false

abbrev pub is_null : Json → Bool
is_null null = true
is_null _ = false

-- An `int` that is no `bool`.
abbrev pub as_integer : Json → Option ℤ
as_integer (int n) = some n
as_integer _ = none

-- `d.get(k)`: a missing key and a JSON null are both `None`.
abbrev or_null : Option Json → Json
or_null none = null
or_null (some v) = v

unfoldable pub get_or_null : String → Fields → Json
unfolding get
get_or_null k fs = or_null (get k fs)

abbrev is_found : Option Json → Bool
is_found none = false
is_found (some v) = true

-- `k in d`
unfoldable pub has_key : String → Fields → Bool
unfolding get
has_key k fs = is_found (get k fs)

-- `isinstance(v, str) and v`
unfoldable pub nonempty_string : Json → Bool
nonempty_string (str s) = not (str_eq s "")
nonempty_string _ = false

-- `isinstance(v, int) and not isinstance(v, bool) and 0 < v <= 0xFFFFFFFF`
unfoldable pub is_positive_uint32 : Json → Bool
is_positive_uint32 (int (pos n)) = ltb 0 n && leb n 0xffffffff
is_positive_uint32 _ = false

-- `bool(v)`; the bits of a float that is zero are 0, or the sign alone.
unfoldable pub truth : Json → Bool
unfolding size
truth null = false
truth (bool b) = b
truth (int (pos zero)) = false
truth (float bits) = not (bits == 0 || bits == 0x8000000000000000)
truth (str s) = not (str_eq s "")
truth (arr nil) = false
truth (obj end) = false
truth _ = true

-- What `v in {…}` raises TypeError for.
unfoldable pub is_hashable : Json → Bool
is_hashable (arr xs) = false
is_hashable (obj fs) = false
is_hashable _ = true

unfoldable pub one_of : Json → List Json → Bool
unfolding py_eq
one_of v vs = any (py_eq v) vs

pub as_object-eq : (v : Json) {fs : Fields} → as_object v ≡ some fs → v ≡ obj fs
as_object-eq v h = ground arith

pub is_positive_uint32-eq :
    (v : Json) → is_positive_uint32 v ≡ true → (n : ℕ) × (v ≡ int (pos n)) × (0 < n) × (n < 2 ^ 32)
unfolding is_positive_uint32
is_positive_uint32-eq (int (pos n)) h = (n, refl, ground arith, ground arith)
is_positive_uint32-eq (int (negsuc n)) h = absurd (cc)
is_positive_uint32-eq null h = absurd (cc)
is_positive_uint32-eq (bool b) h = absurd (cc)
is_positive_uint32-eq (float b) h = absurd (cc)
is_positive_uint32-eq (str s) h = absurd (cc)
is_positive_uint32-eq (arr xs) h = absurd (cc)
is_positive_uint32-eq (obj fs) h = absurd (cc)
