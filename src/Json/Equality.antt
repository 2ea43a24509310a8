-- ===== src/Json/Equality.antt =====
-- Python's `==` on JSON values: numbers are compared by their value, whether they are booleans,
-- integers or floats; dictionaries without regard to the order of their entries.
use axoloty_embedded.Prelude.{
  ℕ, suc, ◌+◌, ◌-◌, ◌*◌, ◌/◌, ◌%◌, ◌^◌, ◌≡◌, refl, Bool, true, false, ◌&&◌, not, String, str_eq,
  Option, none, some, ltb, leb, ◌==◌, if◌then◌else◌, ap, str_eq_iff,
}
use axoloty_embedded.Prelude.Int.{ℤ, pos, eq_ℤ, sub_ℕ}
use axoloty_embedded.Json.Value.{
  Json, null, bool, int, float, str, arr, obj, Items, nil, cons, Fields, end, field,
}

-- A number's value, where it is an integer; else the bits of the float.
pub data Number : Type 0 where
  exact : ℤ → Number
  fraction : ℕ → Number

signed_value : Bool → ℕ → ℤ
signed_value negative n = if negative then sub_ℕ 0 n else pos n

-- A finite float is mantissa * 2 ^ (exponent - 1075), with the hidden bit.
float_value : ℕ → Number
unfolding signed_value
float_value bits =
    let negative = ltb 0 (bits / 2 ^ 63) in
    let exponent = (bits / 2 ^ 52) % 2048 in
    let fraction_bits = bits % 2 ^ 52 in
    let mantissa = if exponent == 0 then fraction_bits else fraction_bits + 2 ^ 52 in
    if exponent == 2047
    then fraction bits
    else if leb 1075 exponent
    then exact (signed_value negative (mantissa * 2 ^ (exponent - 1075)))
    else let scale = 2 ^ (1075 - (if exponent == 0 then 1 else exponent)) in
      if mantissa % scale == 0
      then exact (signed_value negative (mantissa / scale))
      else fraction bits

is_nan : ℕ → Bool
is_nan bits = (bits / 2 ^ 52) % 2048 == 2047 && not (bits % 2 ^ 52 == 0)

number_eq : Number → Number → Bool
unfolding is_nan
number_eq (exact a) (exact b) = eq_ℤ a b
number_eq (fraction x) (fraction y) = x == y && not (is_nan x)
number_eq _ _ = false

number_of : Json → Option Number
unfolding float_value
number_of (bool true) = some (exact (pos 1))
number_of (bool false) = some (exact (pos 0))
number_of (int n) = some (exact n)
number_of (float bits) = some (float_value bits)
number_of _ = none

same_number : Option Number → Option Number → Bool
unfolding number_eq
same_number (some a) (some b) = number_eq a b
same_number _ _ = false

unfoldable pub get : String → Fields → Option Json
get k end = none
get k (field j v fs) = if str_eq j k then some v else get k fs

unfoldable pub size : Fields → ℕ
size end = 0
size (field k v fs) = suc (size fs)

unfoldable mutual
  unfolding get size same_number number_of

  pub py_eq : Json → Json → Bool
  py_eq null null = true
  py_eq (str s) (str t) = str_eq s t
  py_eq (arr xs) (arr ys) = items_eq xs ys
  py_eq (obj fs) (obj gs) = size fs == size gs && fields_in fs gs
  py_eq a b = same_number (number_of a) (number_of b)

  pub items_eq : Items → Items → Bool
  items_eq nil nil = true
  items_eq (cons x xs) (cons y ys) = py_eq x y && items_eq xs ys
  items_eq _ _ = false

  pub fields_in : Fields → Fields → Bool
  fields_in end gs = true
  fields_in (field k v fs) gs = elim (get k gs) [
    | none ↦ false
    | some w ↦ py_eq v w && fields_in fs gs
  ]

-- JSON's `true` and the float 1.0 equal the integer 1; the order of entries does not matter.
equality_run :
    (py_eq (bool true) (int (pos 1)) ≡ true)
    × (py_eq (float 0x3ff0000000000000) (int (pos 1)) ≡ true)
    × (py_eq (float 0x3ff8000000000000) (int (pos 1)) ≡ false)
    × (py_eq (str "1") (int (pos 1)) ≡ false)
    × (py_eq
          (obj (field "a" null (field "b" (int (pos 2)) end)))
          (obj (field "b" (int (pos 2)) (field "a" null end)))
        ≡ true)
unfolding py_eq
equality_run = (refl, refl, refl, refl, refl)

-- Only a text equals a text, and only null equals null.
pub py_eq-str : (v : Json) (s : String) → py_eq v (str s) ≡ true → v ≡ str s
unfolding py_eq
py_eq-str (str t) s h = ap (λ r. str r) ((str_eq_iff t s).0 h)
py_eq-str null s h = absurd (cc)
py_eq-str (bool true) s h = absurd (cc)
py_eq-str (bool false) s h = absurd (cc)
py_eq-str (int n) s h = absurd (cc)
py_eq-str (float b) s h = absurd (cc)
py_eq-str (arr xs) s h = absurd (cc)
py_eq-str (obj fs) s h = absurd (cc)

pub py_eq-null : (v : Json) → py_eq v null ≡ true → v ≡ null
unfolding py_eq
py_eq-null null h = refl
py_eq-null (str t) h = absurd (cc)
py_eq-null (bool true) h = absurd (cc)
py_eq-null (bool false) h = absurd (cc)
py_eq-null (int n) h = absurd (cc)
py_eq-null (float b) h = absurd (cc)
py_eq-null (arr xs) h = absurd (cc)
py_eq-null (obj fs) h = absurd (cc)
