-- ===== src/Audit/Budget.antt =====
-- `enforce_static_storage_budget` of Tools/EmbeddedApplicationMacros/linked_storage_audit.py.
use axoloty_embedded.Prelude.{
  ℕ, ◌≡◌, ◌≤◌, ◌<◌, ◌^◌, Bool, true, not, String, Option, none, some, leb, arith, not-false, ◌↔◌,
  ap,
}
use mathlib.Core.Path.{subst}
use axoloty_embedded.Json.{null, bool, int, float, str, arr, obj, is_positive_uint32-eq}
use axoloty_embedded.Prelude.Int.{ℤ, pos, negsuc, sub_ℕ, ◌+ℤ◌}
use axoloty_embedded.Outcome.{
  Outcome, ok, raised, rejected, ◌>>=◌, ◌>>◌, reject_if, >>=-eq-ok, reject_if-eq-ok, ok-eq,
  attribute_error,
}
use axoloty_embedded.Json.{
  Json, Fields, obj, int, is_positive_uint32, get_or_null, py_eq, get, null,
}
use axoloty_embedded.Json.Load.{load_unique}

pub record Comparison : Type 0 where
  pub actual_bytes : ℕ
  pub ceiling_bytes : ℕ
  pub headroom_bytes : ℤ
  pub passed : Bool

abbrev load_manifest : Option Json → Outcome Json
load_manifest none = raised (rejected "cannot parse application manifest %s: %s")
load_manifest (some document) = load_unique document

abbrev dict_of : Json → String → Outcome Fields
dict_of (obj fs) message = ok fs
dict_of _ message = raised (rejected message)

-- `report.get("combined_object", {}).get("conservative_debit_bytes")`
abbrev debit_of : Fields → Outcome Json
debit_of report = elim (get "combined_object" report) [ none ↦ ok null | some v ↦ field_in v ]
  where
    field_in : Json → Outcome Json
    field_in (obj fs) = ok (get_or_null "conservative_debit_bytes" fs)
    field_in _ = raised attribute_error

abbrev natural_of : Json → Outcome ℕ
natural_of (int (pos n)) = ok n
natural_of _ = raised (rejected "measurement report has no valid aggregate conservative debit")

abbrev positive_of : Json → Outcome ℕ
positive_of (int (pos n)) = ok n
positive_of _ =
    raised (rejected "capacities.applicationStaticStorageBytes must be a positive UInt32")

abbrev ceiling_of : Json → Outcome ℕ
ceiling_of v =
    reject_if (not (is_positive_uint32 v))
      "capacities.applicationStaticStorageBytes must be a positive UInt32"
    >> positive_of v

-- `manifest` is the parsed text, or none for one that json.loads refuses.
unfoldable pub enforce_static_storage_budget : Fields → Option Json → Outcome Comparison
enforce_static_storage_budget report document = do
  value ← load_manifest document
  manifest ← dict_of value "application manifest root must be an object"
  capacities ←
      dict_of (get_or_null "capacities" manifest)
        "application manifest capacities must be an object"
  ceiling ← ceiling_of (get_or_null "applicationStaticStorageBytes" capacities)
  debit ← debit_of report
  actual ← natural_of debit
  reject_if (not (py_eq (get_or_null "aggregate_charged_static_bytes" report) debit))
      "aggregate static charge does not equal the conservative combined-object debit"
  ok (record {
    actual_bytes = actual;
    ceiling_bytes = ceiling;
    headroom_bytes = sub_ℕ ceiling actual;
    passed = leb actual ceiling;
  })

-- What the comparison says of the two numbers.
pub record IsSound (report : Fields) (c : Comparison) : Type 0 where
  pub decides : (c.passed ≡ true) ↔ (c.actual_bytes ≤ c.ceiling_bytes)
  pub adds_up : c.headroom_bytes +ℤ pos c.actual_bytes ≡ pos c.ceiling_bytes
  pub positive : 0 < c.ceiling_bytes
  pub fits : c.ceiling_bytes < 2 ^ 32
  pub charged :
      py_eq (get_or_null "aggregate_charged_static_bytes" report) (int (pos c.actual_bytes)) ≡ true

adds_up : (a b : ℕ) → sub_ℕ b a +ℤ pos a ≡ pos b
unfolding ◌+ℤ◌
adds_up a b = ground arith

ceiling_of-eq : (v : Json) (n : ℕ) → ceiling_of v ≡ ok n → (0 < n) × (n < 2 ^ 32)
ceiling_of-eq v n h =
    let (fine, k) =
      reject_if-eq-ok (not (is_positive_uint32 v))
        "capacities.applicationStaticStorageBytes must be a positive UInt32" (positive_of v) h in
    let (m, e, p, q) = is_positive_uint32-eq v (not-false _ fine) in same m (rw e at k) p q
  where
    same : (m : ℕ) → ok m ≡ ok n → 0 < m → m < 2 ^ 32 → (0 < n) × (n < 2 ^ 32)
    same m k p q = let e = ok-eq k in (omega (arith, e, p), omega (arith, e, q))

natural_of-eq : (v : Json) (n : ℕ) → natural_of v ≡ ok n → v ≡ int (pos n)
natural_of-eq (int (pos m)) n h = ap (λ k. int (pos k)) (ok-eq h)
natural_of-eq (int (negsuc m)) n h = absurd (cc)
natural_of-eq null n h = absurd (cc)
natural_of-eq (bool b) n h = absurd (cc)
natural_of-eq (float b) n h = absurd (cc)
natural_of-eq (str s) n h = absurd (cc)
natural_of-eq (arr xs) n h = absurd (cc)
natural_of-eq (obj fs) n h = absurd (cc)

-- A comparison that is returned is sound: it passes exactly when the charged bytes are at most the
-- ceiling, the headroom and the charged bytes add up to the ceiling, the ceiling is positive and
-- below 2^32, and the aggregate charge of the report equals the charged bytes.
pub enforce_static_storage_budget-IsSound :
    (report : Fields) (document : Option Json) (c : Comparison)
    → enforce_static_storage_budget report document ≡ ok c
    → IsSound report c
unfolding enforce_static_storage_budget
enforce_static_storage_budget-IsSound report document c h =
    let (value, a, h₁) = >>=-eq-ok (load_manifest document) _ h in
    let (manifest, b, h₂) = >>=-eq-ok (dict_of value _) _ h₁ in
    let (capacities, d, h₃) = >>=-eq-ok (dict_of (get_or_null "capacities" manifest) _) _ h₂ in
    let (ceiling, e, h₄) =
      >>=-eq-ok (ceiling_of (get_or_null "applicationStaticStorageBytes" capacities)) _ h₃ in
    let (debit, f, h₅) = >>=-eq-ok (debit_of report) _ h₄ in
    let (actual, g, h₆) = >>=-eq-ok (natural_of debit) _ h₅ in
    let (same, h₇) = reject_if-eq-ok _ _ _ h₆ in
    let (positive, fits) =
      ceiling_of-eq (get_or_null "applicationStaticStorageBytes" capacities) ceiling e in
    subst (IsSound report) (ok-eq h₇) (record {
      decides = ground arith;
      adds_up = adds_up actual ceiling;
      positive = positive;
      fits = fits;
      charged =
          subst (λ v. py_eq (get_or_null "aggregate_charged_static_bytes" report) v ≡ true)
            (natural_of-eq debit actual g) (not-false _ same);
    })
