-- ===== src/Stack/Contracts.antt =====
-- The checks of the input documents in Tools/EmbeddedApplicationMacros/first_init_stack.py.
use axoloty_embedded.Prelude.{
  ℕ, ◌≡◌, refl, ◌<◌, ◌^◌, Bool, true, false, not, ◌&&◌, String, str_eq, Option, none, some, List,
  [], ◌∷◌, if◌then◌else◌, all, leb, ◌==◌, arith, All,
}
use mathlib.Core.Path.{subst, sym}
use axoloty_embedded.Prelude.Int.{ℤ, pos, negsuc}
use axoloty_embedded.Prelude.Text.{codes}
use axoloty_embedded.Json.{null, float}
use axoloty_embedded.Prelude.{Bool-cases, inl, inr}
use axoloty_embedded.Outcome.{
  Outcome, ok, raised, rejected, ◌>>=◌, ◌>>◌, reject_if, >>=-eq-ok, reject_if-eq-ok, ok-eq,
}
use axoloty_embedded.Stack.Operands.{parse_int}
use axoloty_embedded.Json.{
  Fields, Json, obj, str, get_or_null, get, nonempty_string, arr, is_string, int, bool, has_key,
  elements, is_object,
}

unfoldable pub json_object : Json → Outcome Fields
json_object (obj fs) = ok fs
json_object _ = raised (rejected "%s must be a JSON object")

unfoldable pub address_in_range : Option ℤ → Outcome ℕ
address_in_range none = raised (rejected "%s is not a valid address: %r")
address_in_range (some (negsuc n)) = raised (rejected "%s is outside the ELF32 address range: %r")
address_in_range (some (pos n)) =
    if leb n 0xffffffff then ok n else raised (rejected "%s is outside the ELF32 address range: %r")

unfoldable pub parse_address : Json → Outcome ℕ
parse_address (str s) =
    if str_eq s ""
    then raised (rejected "%s must be a hexadecimal or decimal address string")
    else address_in_range (parse_int (codes s))
parse_address _ = raised (rejected "%s must be a hexadecimal or decimal address string")

abbrev is_exact_version : Json → Outcome (Unit {0})
is_exact_version (str s) =
    reject_if (not (str_eq s "5.4.0")) "expected the exact ESP-IDF 5.4.0 build config, found %r"
is_exact_version _ = raised (rejected "build config must contain string IDF_VERSION")

unfoldable pub validate_build_config : Json → Outcome Fields
validate_build_config value = do
  document ← json_object value
  is_exact_version (get_or_null "IDF_VERSION" document)
  ok document

abbrev optional_address : String → Fields → Outcome (Unit {0})
optional_address name fs = elim (get name fs) [ none ↦ ok tt | some v ↦ checked v ]
  where
    checked : Json → Outcome (Unit {0})
    checked v = do address ← parse_address v; ok tt

unfoldable pub check_site : Json → Outcome (Unit {0})
check_site raw = do
  site ← json_object raw
  reject_if (not (nonempty_string (get_or_null "caller" site)))
      "callback sites[%d].caller must be a non-empty string"
  call_pc ← parse_address (get_or_null "callPc" site)
  optional_address "evidencePc" site
  callback ← json_object (get_or_null "callback" site)
  reject_if (not (nonempty_string (get_or_null "symbol" callback)))
      "callback sites[%d].callback.symbol must be a non-empty string"
  address ← parse_address (get_or_null "address" callback)
  ok tt

unfoldable pub check_each : (Json → Outcome (Unit {0})) → List Json → Outcome (Unit {0})
check_each check [] = ok tt
check_each check (v ∷ vs) = do check v; check_each check vs

abbrev list_of : Json → String → Outcome (List Json)
list_of (arr xs) message = ok (elements xs)
list_of _ message = raised (rejected message)

unfoldable pub validate_callback_contract : Json → Outcome Fields
validate_callback_contract value = do
  document ← json_object value
  reject_if (not (is_string (get_or_null "elfSha256" document)))
      "callback contract must contain string elfSha256"
  sites ← list_of (get_or_null "sites" document) "callback contract must contain a sites array"
  check_each check_site sites
  ok document

abbrev is_one : Json → Bool
is_one (int (pos n)) = n == 1
is_one _ = false

abbrev is_natural : Json → Bool
is_natural (int (pos n)) = true
is_natural _ = false

abbrev is_boolean : Json → Bool
is_boolean (bool b) = true
is_boolean _ = false

-- `name in record and not test(record[name])`
abbrev breaks : String → (Json → Bool) → Fields → Bool
breaks name test fs = has_key name fs && not (test (get_or_null name fs))

unfoldable pub check_rom_record : Json → Outcome (Unit {0})
check_rom_record raw = do
  fields ← json_object raw
  address ← parse_address (get_or_null "address" fields)
  reject_if (breaks "complete" is_boolean fields)
      "ROM contract records[%d].complete must be boolean"
  reject_if (breaks "stackBytes" is_natural fields)
      "ROM contract records[%d].stackBytes must be a non-negative integer"
  reject_if (breaks "inputs" is_object fields) "ROM contract records[%d].inputs must be an object"

abbrev has_rom_fields : Fields → Bool
has_rom_fields document =
    all (λ name. has_key name document) ("schemaVersion" ∷ "idfVersion" ∷ "target" ∷ "records" ∷ [])

abbrev are_rom_texts : Fields → Bool
are_rom_texts document =
    is_string (get_or_null "idfVersion" document) && is_string (get_or_null "target" document)

unfoldable pub validate_rom_contract : Json → Outcome Fields
validate_rom_contract value = do
  document ← json_object value
  reject_if (not (has_rom_fields document)) "ROM contract is missing %s"
  reject_if (not (is_one (get_or_null "schemaVersion" document)))
      "ROM contract schemaVersion must be integer 1"
  reject_if (not (are_rom_texts document)) "ROM contract idfVersion and target must be strings"
  records ← list_of (get_or_null "records" document) "ROM contract records must be an array"
  check_each check_rom_record records
  ok document

-- A record of the ROM that can be used: its address is written as a number below 2^32, its stack,
-- where it names one, is a natural number, and what it says of completeness and inputs has the
-- right form.
pub record IsUsable (raw : Json) : Type 0 where
  pub fields : Fields
  pub written : String
  pub address : ℕ
  pub is_dict : raw ≡ obj fields
  pub located : get_or_null "address" fields ≡ str written
  pub parsed : parse_int (codes written) ≡ some (pos address)
  pub fits : address < 2 ^ 32
  pub stack :
      has_key "stackBytes" fields ≡ true
      → (bytes : ℕ) × (get_or_null "stackBytes" fields ≡ int (pos bytes))
  pub complete :
      has_key "complete" fields ≡ true → (flag : Bool) × (get_or_null "complete" fields ≡ bool flag)
  pub inputs :
      has_key "inputs" fields ≡ true → (given : Fields) × (get_or_null "inputs" fields ≡ obj given)

json_object-eq : (v : Json) (fs : Fields) → json_object v ≡ ok fs → v ≡ obj fs
unfolding json_object
json_object-eq v fs h = ground arith

address_in_range-eq :
    (o : Option ℤ) (a : ℕ) → address_in_range o ≡ ok a → (o ≡ some (pos a)) × (a < 2 ^ 32)
unfolding address_in_range
address_in_range-eq none a h = absurd (cc)
address_in_range-eq (some (negsuc n)) a h = absurd (cc)
address_in_range-eq (some (pos n)) a h = elim (Bool-cases (leb n 0xffffffff)) [
  | inl e ↦ (ground arith, ground arith)
  | inr e ↦ absurd (ground arith)
]

abbrev refused : Outcome ℕ
refused = raised (rejected "%s must be a hexadecimal or decimal address string")

-- An address is a text that Python reads as a number below 2^32.
abbrev IsAddress : Json → ℕ → Type 0
IsAddress v a = (s : String) × (v ≡ str s) × (parse_int (codes s) ≡ some (pos a)) × (a < 2 ^ 32)

parse_address-IsAddress : (v : Json) (a : ℕ) → parse_address v ≡ ok a → IsAddress v a
unfolding parse_address
parse_address-IsAddress (str s) a h = elim (Bool-cases (str_eq s "")) [
  | inl e ↦ absurd (never (rw e at h))
  | inr e ↦ let (p, l) = address_in_range-eq (parse_int (codes s)) a (rw e at h) in (s, refl, p, l)
]
  where
    never : refused ≡ ok a → ⊥
    never q = cc
parse_address-IsAddress null a h = absurd (cc)
parse_address-IsAddress (bool b) a h = absurd (cc)
parse_address-IsAddress (int n) a h = absurd (cc)
parse_address-IsAddress (float b) a h = absurd (cc)
parse_address-IsAddress (arr xs) a h = absurd (cc)
parse_address-IsAddress (obj fs) a h = absurd (cc)

tested : (has good : Bool) → (has && not good) ≡ false → has ≡ true → good ≡ true
tested has good h e = ground arith

is_natural-eq : (v : Json) → is_natural v ≡ true → (n : ℕ) × (v ≡ int (pos n))
is_natural-eq (int (pos n)) h = (n, refl)
is_natural-eq (int (negsuc n)) h = absurd (cc)
is_natural-eq null h = absurd (cc)
is_natural-eq (bool b) h = absurd (cc)
is_natural-eq (float b) h = absurd (cc)
is_natural-eq (str s) h = absurd (cc)
is_natural-eq (arr xs) h = absurd (cc)
is_natural-eq (obj fs) h = absurd (cc)

is_boolean-eq : (v : Json) → is_boolean v ≡ true → (b : Bool) × (v ≡ bool b)
is_boolean-eq (bool b) h = (b, refl)
is_boolean-eq null h = absurd (cc)
is_boolean-eq (int n) h = absurd (cc)
is_boolean-eq (float b) h = absurd (cc)
is_boolean-eq (str s) h = absurd (cc)
is_boolean-eq (arr xs) h = absurd (cc)
is_boolean-eq (obj fs) h = absurd (cc)

is_object-eq : (v : Json) → is_object v ≡ true → (fs : Fields) × (v ≡ obj fs)
is_object-eq (obj fs) h = (fs, refl)
is_object-eq null h = absurd (cc)
is_object-eq (int n) h = absurd (cc)
is_object-eq (bool b) h = absurd (cc)
is_object-eq (float b) h = absurd (cc)
is_object-eq (str s) h = absurd (cc)
is_object-eq (arr xs) h = absurd (cc)

check_rom_record-IsUsable : (raw : Json) → check_rom_record raw ≡ ok tt → IsUsable raw
unfolding check_rom_record
check_rom_record-IsUsable raw h =
    let (fs, p, h₁) = >>=-eq-ok (json_object raw) _ h in
    let (a, q, h₂) = >>=-eq-ok (parse_address (get_or_null "address" fs)) _ h₁ in
    let (c, h₃) =
      reject_if-eq-ok (breaks "complete" is_boolean fs)
        "ROM contract records[%d].complete must be boolean" _ h₂ in
    let (s, h₄) =
      reject_if-eq-ok (breaks "stackBytes" is_natural fs)
        "ROM contract records[%d].stackBytes must be a non-negative integer" _ h₃ in
    let i : breaks "inputs" is_object fs ≡ false =
      unless (breaks "inputs" is_object fs) "ROM contract records[%d].inputs must be an object"
        h₄ in
    let (written, l, r, f) = parse_address-IsAddress (get_or_null "address" fs) a q in
    record {
      fields = fs;
      written = written;
      address = a;
      is_dict = json_object-eq raw fs p;
      located = l;
      parsed = r;
      fits = f;
      stack = λ k. is_natural-eq (get_or_null "stackBytes" fs) (tested _ _ s k);
      complete = λ k. is_boolean-eq (get_or_null "complete" fs) (tested _ _ c k);
      inputs = λ k. is_object-eq (get_or_null "inputs" fs) (tested _ _ i k);
    }
  where
    unless : (b : Bool) (message : String) → reject_if b message ≡ ok tt → b ≡ false
    unless b message k = ground arith

check_each-All :
    (check : Json → Outcome (Unit {0})) (P : Json → Type 0)
    → ((v : Json) → check v ≡ ok tt → P v)
    → (vs : List Json) → check_each check vs ≡ ok tt
    → All P vs
unfolding check_each
check_each-All check P f [] h = tt
check_each-All check P f (v ∷ vs) h =
    let (done, p, k) = >>=-eq-ok (check v) _ h in (f v p, check_each-All check P f vs k)

-- The records of a contract.
abbrev pub records_in : Json → List Json
records_in (arr xs) = elements xs
records_in _ = []

list_of-eq :
    (v : Json) (message : String) (vs : List Json) → list_of v message ≡ ok vs → records_in v ≡ vs
list_of-eq v message vs h = ground arith

-- If a ROM contract is valid, then the document is the object that is returned, and each of its
-- records is an object whose address is a text that reads as a number below 2^32, whose stackBytes,
-- if there, is a natural number, whose complete, if there, is a Boolean, and whose inputs, if there,
-- are an object.
pub validate_rom_contract-IsUsable :
    (value : Json) (document : Fields)
    → validate_rom_contract value ≡ ok document
    → (value ≡ obj document) × All IsUsable (records_in (get_or_null "records" document))
unfolding validate_rom_contract
validate_rom_contract-IsUsable value document h =
    let (found, p, h₁) = >>=-eq-ok (json_object value) _ h in
    let (a, h₂) = reject_if-eq-ok (not (has_rom_fields found)) "ROM contract is missing %s" _ h₁ in
    let (b, h₃) =
      reject_if-eq-ok (not (is_one (get_or_null "schemaVersion" found)))
        "ROM contract schemaVersion must be integer 1" _ h₂ in
    let (c, h₄) =
      reject_if-eq-ok (not (are_rom_texts found))
        "ROM contract idfVersion and target must be strings" _ h₃ in
    let (records, q, h₅) =
      >>=-eq-ok (list_of (get_or_null "records" found) "ROM contract records must be an array") _
        h₄ in
    let (done, r, h₆) = >>=-eq-ok (check_each check_rom_record records) _ h₅ in
    subst (λ fs. (value ≡ obj fs) × All IsUsable (records_in (get_or_null "records" fs))) (ok-eq h₆)
      (
        json_object-eq value found p,
        subst (All IsUsable) (sym (list_of-eq (get_or_null "records" found) _ records q))
            (check_each-All check_rom_record IsUsable check_rom_record-IsUsable records r),
      )
