-- ===== src/Composition/Suits.antt =====
-- What the manifests of a selection that passes have to do with each other.
use axoloty_embedded.Prelude.{
  ℕ, ◌≡◌, ◌≤◌, ◌<◌, ◌^◌, true, false, not, String, List, [], ◌∷◌, All, arith, Bool-cases, inl, inr,
  not-false, &&_both, In, Option-cases, map, ap, refl, some, none, Option,
}
use mathlib.Core.Path.{subst}
use axoloty_embedded.Prelude.Int.{pos, ltb_ℤ}
use axoloty_embedded.Outcome.{ok, >>=-eq-ok, ok-eq, reject_if-eq-ok}
use axoloty_embedded.Composition.{
  missing_from, listed_in, app_requirements, is_empty, get_or_null, is_positive_uint32,
  Requirements, int, int_at, platform_names, carrier_names, all_uint32, capacity_names, Json,
  require_dict, within_limits, transport_limits, string_set, check_selection, carrier_limit_names,
  obj, check_capacities, Repository, check_requirements, check_sources, texts_of, distinct_texts,
}
use axoloty_embedded.Json.{
  Fields, is_positive_uint32-eq, arr, elements, Items, null, bool, float, str, obj,
}
use axoloty_embedded.Release.Fields.{int_of}
use axoloty_embedded.Prelude.Text.Laws.{In-any}

-- Every required capability is provided, and stands in the catalog.
pub record Provided (catalog available required : List String) : Type 0 where
  pub offered : All (λ name. In name available) required
  pub named : All (λ name. In name catalog) required

missing_from-empty :
    (available required : List String)
    → is_empty (missing_from available required) ≡ true
    → All (λ name. In name available) required
unfolding missing_from
missing_from-empty available [] h = tt
missing_from-empty available (name ∷ names) h = elim (Bool-cases (listed_in available name)) [
  | inl e ↦ (In-any name available e, missing_from-empty available names (rw e at h))
  | inr e ↦ absurd (never (rw e at h))
]
  where
    never : false ≡ true → ⊥
    never q = cc

-- A capacity within the ceiling of the transport, both of them positive 32-bit numbers.
pub record IsWithin (capacities limits : Fields) (name : String) : Type 0 where
  pub capacity : ℕ
  pub ceiling : ℕ
  pub declared : get_or_null name capacities ≡ int (pos capacity)
  pub limited : get_or_null name limits ≡ int (pos ceiling)
  pub positive : 0 < capacity
  pub within : capacity ≤ ceiling
  pub fits : ceiling < 2 ^ 32

int_at-IsWithin :
    (capacities limits : Fields) (name : String)
    → is_positive_uint32 (get_or_null name capacities) ≡ true
    → is_positive_uint32 (get_or_null name limits) ≡ true
    → not (ltb_ℤ (int_at name limits) (int_at name capacities)) ≡ true
    → IsWithin capacities limits name
int_at-IsWithin capacities limits name c l h =
    let (m, e, p, q) = is_positive_uint32-eq (get_or_null name capacities) c in
    let (n, f, r, s) = is_positive_uint32-eq (get_or_null name limits) l in
    record {
      capacity = m;
      ceiling = n;
      declared = e;
      limited = f;
      positive = p;
      within = compared (get_or_null name capacities) (get_or_null name limits) m n e f h;
      fits = s;
    }
  where
    compared :
        (v w : Json) (m n : ℕ)
        → v ≡ int (pos m)
        → w ≡ int (pos n)
        → not (ltb_ℤ (int_of w) (int_of v)) ≡ true
        → m ≤ n
    compared v w m n e f k =
        let j : not (ltb_ℤ (pos n) (pos m)) ≡ true = rw (e, f) at k in ground arith

-- A value is the list of these texts.
abbrev pub Lists : Json → List String → Type 0
Lists v names = (xs : Items) × (v ≡ arr xs) × (elements xs ≡ map str names)

texts_of-eq : (vs : List Json) (names : List String) → texts_of vs ≡ some names → vs ≡ map str names
unfolding texts_of
texts_of-eq [] [] h = refl
texts_of-eq [] (n ∷ names) h = absurd (cc)
texts_of-eq (str s ∷ vs) names h = elim (Option-cases (texts_of vs)) [
  | inl e ↦ absurd (nothing (rw (e, texts_of) at h))
  | inr (ss, e) ↦
      let q : s ∷ ss ≡ names = texts_eq (rw (e, texts_of) at h) in
      subst (λ ns. str s ∷ vs ≡ map str ns) q (ap (λ ws. str s ∷ ws) (texts_of-eq vs ss e))
]
  where
    nothing : none ≡ some names → ⊥
    nothing k = cc

    texts_eq : {a b : List String} → some a ≡ some b → a ≡ b
    texts_eq k = cc
texts_of-eq (null ∷ vs) names h = absurd (cc)
texts_of-eq (bool b ∷ vs) names h = absurd (cc)
texts_of-eq (int n ∷ vs) names h = absurd (cc)
texts_of-eq (float b ∷ vs) names h = absurd (cc)
texts_of-eq (arr xs ∷ vs) names h = absurd (cc)
texts_of-eq (obj fs ∷ vs) names h = absurd (cc)

distinct_texts-eq :
    (o : Option (List String)) (names : List String) → distinct_texts o ≡ ok names → o ≡ some names
unfolding distinct_texts
distinct_texts-eq o names h = ground arith

string_set-Lists : (v : Json) (names : List String) → string_set v ≡ ok names → Lists v names
unfolding string_set
string_set-Lists (arr xs) names h =
    (xs, refl, texts_of-eq (elements xs) names (distinct_texts-eq (texts_of (elements xs)) names h))
string_set-Lists null names h = absurd (cc)
string_set-Lists (bool b) names h = absurd (cc)
string_set-Lists (int n) names h = absurd (cc)
string_set-Lists (float b) names h = absurd (cc)
string_set-Lists (str s) names h = absurd (cc)
string_set-Lists (obj fs) names h = absurd (cc)

-- What an application manifest asks for, read off the document.
pub record Asks (manifest : Fields) (r : Requirements) : Type 0 where
  pub requirements : Fields
  pub declared : get_or_null "requirements" manifest ≡ obj requirements
  pub platform_listed : Lists (get_or_null "platform" requirements) r.platform
  pub carrier_listed : Lists (get_or_null "carrier" requirements) r.carrier
  pub capacities_declared : get_or_null "capacities" manifest ≡ obj r.capacities

pub dict_eq :
    (v : Json) (message : String) (fs : Fields) → require_dict v message ≡ ok fs → v ≡ obj fs
dict_eq v message fs k = ground arith

app_requirements-fine :
    (manifest : Fields) (r : Requirements)
    → app_requirements manifest ≡ ok r
    → All (λ name. In name platform_names) r.platform
      × All (λ name. In name carrier_names) r.carrier
      × (all_uint32 capacity_names r.capacities ≡ true)
      × Asks manifest r
unfolding app_requirements
app_requirements-fine manifest r h =
    let (requirements, a, h₁) =
      >>=-eq-ok (require_dict (get_or_null "requirements" manifest) _) _ h in
    let (platform, b, h₂) = >>=-eq-ok (string_set (get_or_null "platform" requirements)) _ h₁ in
    let (carrier, c, h₃) = >>=-eq-ok (string_set (get_or_null "carrier" requirements)) _ h₂ in
    let (d, h₄) = reject_if-eq-ok _ _ _ h₃ in
    let (e, h₅) = reject_if-eq-ok _ _ _ h₄ in
    let (capacities, f, h₆) = >>=-eq-ok (require_dict (get_or_null "capacities" manifest) _) _ h₅ in
    let (g, h₇) = reject_if-eq-ok _ _ _ h₆ in
    let (i, h₈) = reject_if-eq-ok _ _ _ h₇ in
    subst
      (λ (q : Requirements).
        All (λ name. In name platform_names) q.platform
        × All (λ name. In name carrier_names) q.carrier
        × (all_uint32 capacity_names q.capacities ≡ true)
        × Asks manifest q)
      (ok-eq h₈)
      (
        missing_from-empty platform_names platform (not-false _ d),
        missing_from-empty carrier_names carrier (not-false _ e),
        not-false _ g,
        record {
          requirements = requirements;
          declared = dict_eq (get_or_null "requirements" manifest) _ requirements a;
          platform_listed = string_set-Lists (get_or_null "platform" requirements) platform b;
          carrier_listed = string_set-Lists (get_or_null "carrier" requirements) carrier c;
          capacities_declared = dict_eq (get_or_null "capacities" manifest) _ capacities f;
        },
      )

-- The first two capacities are bounded by the limits.
limits_hold :
    (capacities limits : Fields)
    → all_uint32 capacity_names capacities ≡ true
    → all_uint32 carrier_limit_names limits ≡ true
    → within_limits capacities limits ≡ true
    → All (IsWithin capacities limits) carrier_limit_names
unfolding all_uint32 within_limits
limits_hold capacities limits c l w =
    let (c₁, c₂) = &&_both _ _ c in
    let (l₁, l₂) = &&_both _ _ l in
    let (w₁, w₂) = &&_both _ _ w in
    (
      int_at-IsWithin capacities limits "maxTopicLength" c₁ l₁ w₁,
      (
        int_at-IsWithin capacities limits "maxPayloadSize" (&&_both _ _ c₂).0 (&&_both _ _ l₂).0
            (&&_both _ _ w₂).0,
        tt,
      ),
    )

transport_limits-uint32 :
    (transport limits : Fields)
    → transport_limits transport ≡ ok limits
    → (get_or_null "limits" transport ≡ obj limits) × (all_uint32 carrier_limit_names limits ≡ true)
unfolding transport_limits
transport_limits-uint32 transport limits h =
    let (found, a, h₁) = >>=-eq-ok (require_dict (get_or_null "limits" transport) _) _ h in
    let (b, h₂) = reject_if-eq-ok _ _ _ h₁ in
    let (c, h₃) = reject_if-eq-ok _ _ _ h₂ in
    subst
      (λ fs. (get_or_null "limits" transport ≡ obj fs) × (all_uint32 carrier_limit_names fs ≡ true))
      (ok-eq h₃) (dict_eq (get_or_null "limits" transport) _ found a, not-false _ c)

-- What the three manifests of a selection have to do with each other.
pub record Suits (application platform transport : Fields) (r : Requirements) : Type 0 where
  pub limits : Fields
  pub platform_offers : List String
  pub carrier_offers : List String
  pub asks : Asks application r
  pub platform_listed : Lists (get_or_null "capabilities" platform) platform_offers
  pub carrier_listed : Lists (get_or_null "capabilities" transport) carrier_offers
  pub limits_declared : get_or_null "limits" transport ≡ obj limits
  pub platform_provided : Provided platform_names platform_offers r.platform
  pub carrier_provided : Provided carrier_names carrier_offers r.carrier
  pub bounded : All (IsWithin r.capacities limits) carrier_limit_names

pub check_selection-Suits :
    (repository : Repository) (directory : String) (application platform transport : Fields)
    (r : Requirements)
    → check_selection repository directory application platform transport ≡ ok r
    → Suits application platform transport r
unfolding check_selection check_capacities check_requirements
check_selection-Suits repository directory application platform transport r h =
    let (required, a, h₁) = >>=-eq-ok (app_requirements application) _ h in
    let (offers, b, h₂) = >>=-eq-ok (string_set (get_or_null "capabilities" platform)) _ h₁ in
    let (carried, c, h₃) = >>=-eq-ok (string_set (get_or_null "capabilities" transport)) _ h₂ in
    let (d, h₄) =
      reject_if-eq-ok (not (is_empty (missing_from platform_names offers)))
        "unknown platform capability name: %s" _ h₃ in
    let (e, h₅) =
      reject_if-eq-ok (not (is_empty (missing_from carrier_names carried)))
        "unknown carrier capability name: %s" _ h₄ in
    let (limits, f, h₆) = >>=-eq-ok (transport_limits transport) _ h₅ in
    let (g, h₇) =
      reject_if-eq-ok (not (within_limits required.capacities limits))
        "application capacities.%s %s exceeds the fixed ceiling %s of transport '%s'" _ h₆ in
    let (i, h₈) =
      reject_if-eq-ok (not (is_empty (missing_from offers required.platform)))
        "%s '%s' does not provide required capability: %s" _ h₇ in
    let (j, h₉) =
      reject_if-eq-ok (not (is_empty (missing_from carried required.carrier)))
        "%s '%s' does not provide required capability: %s" _ h₈ in
    let (sources, k, h₁₀) =
      >>=-eq-ok (check_sources repository directory (get_or_null "sources" application)) _ h₉ in
    let fine = app_requirements-fine application required a in
    let (declared, uint32) = transport_limits-uint32 transport limits f in
    subst (Suits application platform transport) (ok-eq h₁₀) (record {
      limits = limits;
      platform_offers = offers;
      carrier_offers = carried;
      asks = fine.3;
      platform_listed = string_set-Lists (get_or_null "capabilities" platform) offers b;
      carrier_listed = string_set-Lists (get_or_null "capabilities" transport) carried c;
      limits_declared = declared;
      platform_provided = record {
        offered = missing_from-empty offers required.platform (not-false _ i);
        named = fine.0;
      };
      carrier_provided = record {
        offered = missing_from-empty carried required.carrier (not-false _ j);
        named = fine.1;
      };
      bounded = limits_hold required.capacities limits fine.2 uint32 (not-false _ g);
    })
