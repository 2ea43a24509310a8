-- ===== src/Policy/Correct.antt =====
-- What a classification guarantees.
use axoloty_embedded.Prelude.{
  [], ◌∷◌, ℕ, ◌≡◌, ◌≢◌, ◌⊎◌, ◌<◌, arith, String, List, All, ◌^◌, ◌++◌, ◌||◌, ||_cases, inl, inr,
  Bool-cases, not-false, ◌&&◌,
}
use axoloty_embedded.Policy.{
  map_member, is_map_member, ceiling_policy, swift_policy, swift_image, carrier_image, classify,
  read_object, field, swift_configured, c_only, pos, ends_with, true, codes, ◌∷◌, not,
  require_object, names_app, read_lines, false, scenario, values_of, cache_key, Bool,
  swift_not_configured,
}
use axoloty_embedded.Host.{Host, slash}
use axoloty_embedded.Json.{
  Json, Fields, obj, int, str, get_or_null, py_eq, is_positive_uint32, has_key, as_object,
  is_positive_uint32-eq,
}
use axoloty_embedded.Prelude.Int.{pos}
use axoloty_embedded.Outcome.{ok, >>=-eq-ok, reject_if-eq-ok, reject_if, ◌>>◌}
use axoloty_embedded.Prelude.Text.Laws.{contains_text-single, ends_with-true}

-- A linker-map member: a file name that ends in .o or .obj, with no separator in it.
pub record IsMember (member : String) : Type 0 where
  pub plain : All (λ c. (c ≢ slash) × (c ≢ 92)) (codes member)
  pub object_file :
      (stem : List ℕ) × ((codes member ≡ stem ++ codes ".o")
        ⊎ (codes member ≡ stem ++ codes ".obj"))

-- Everything that a configured image rests on: the two documents, the ceiling, and the member.
pub record IsConfigured (host : Host) (manifest_path inventory_path member : String) : Type 0 where
  pub manifest : Fields
  pub capacities : Fields
  pub inventory : Fields
  pub ceiling : ℕ
  pub manifest_read : read_object host manifest_path ≡ ok manifest
  pub inventory_read : read_object host inventory_path ≡ ok inventory
  pub declares : get_or_null "capacities" manifest ≡ obj capacities
  pub bound : get_or_null field capacities ≡ int (pos ceiling)
  pub positive : 0 < ceiling
  pub fits : ceiling < 2 ^ 32
  pub same_app : py_eq (get_or_null "app" inventory) (get_or_null "name" manifest) ≡ true
  pub member_named : get_or_null "expectedMapMember" inventory ≡ str member
  pub member_valid : IsMember member

All-both :
    (xs : List ℕ)
    → All (λ c. c ≢ slash) xs
    → All (λ c. c ≢ 92) xs
    → All (λ c. (c ≢ slash) × (c ≢ 92)) xs
All-both [] h k = tt
All-both (x ∷ xs) h k = ((h.0, k.0), All-both xs h.1 k.1)

object_suffix :
    (text : List ℕ)
    → (ends_with (codes ".o") text || ends_with (codes ".obj") text) ≡ true
    → (stem : List ℕ) × ((text ≡ stem ++ codes ".o") ⊎ (text ≡ stem ++ codes ".obj"))
object_suffix text h = elim (||_cases (ends_with (codes ".o") text) _ h) [
  | inl e ↦ let (stem, q) = ends_with-true (codes ".o") text e in (stem, inl q)
  | inr e ↦ let (stem, q) = ends_with-true (codes ".obj") text e in (stem, inr q)
]

is_map_member-IsMember : (member : String) → is_map_member member ≡ true → IsMember member
unfolding is_map_member
is_map_member-IsMember member h = record {
  plain =
      All-both (codes member) (contains_text-single slash (codes member) (ground arith))
        (contains_text-single 92 (codes member) (ground arith));
  object_file = object_suffix (codes member) (ground arith);
}

map_member-eq :
    (v : Json) (member : String)
    → map_member v ≡ ok (swift_configured member)
    → (v ≡ str member) × (is_map_member member ≡ true)
unfolding map_member
map_member-eq v member h = ground arith

require_object-eq :
    (v : Json) (message : String) (fs : Fields)
    → require_object (as_object v) message ≡ ok fs
    → v ≡ obj fs
unfolding require_object
require_object-eq v message fs h = ground arith

middle_true : (a b c : Bool) → not (a && b && c) ≡ false → b ≡ true
middle_true a b c h = ground arith

names_app-same :
    (inventory : Fields) (name : Json)
    → not (names_app inventory name) ≡ false
    → py_eq (get_or_null "app" inventory) name ≡ true
unfolding names_app
names_app-same inventory name h = middle_true _ _ _ h

module _ (host : Host) (manifest_path inventory_path member : String) where
  ceiling_policy-IsConfigured :
      (manifest capacities : Fields)
      → read_object host manifest_path ≡ ok manifest
      → get_or_null "capacities" manifest ≡ obj capacities
      → ceiling_policy host inventory_path manifest capacities ≡ ok (swift_configured member)
      → IsConfigured host manifest_path inventory_path member
  unfolding ceiling_policy swift_policy
  ceiling_policy-IsConfigured manifest capacities r d h =
      elim (Bool-cases (has_key field capacities)) [
        | inl e ↦ declared (rw e at h)
        | inr e ↦ absurd (ground arith)
      ]
    where
      declared :
          (reject_if
                (not (is_positive_uint32 (get_or_null field capacities)))
                "%s capacities.%s must be a positive UInt32"
              >> swift_policy host inventory_path manifest)
            ≡ ok (swift_configured member)
          → IsConfigured host manifest_path inventory_path member
      declared k =
          let (p, k₁) = reject_if-eq-ok _ _ _ k in
          let (inventory, q, k₂) = >>=-eq-ok (read_object host inventory_path) _ k₁ in
          let (named, k₃) = reject_if-eq-ok _ _ _ k₂ in
          let (member_named, valid) =
            map_member-eq (get_or_null "expectedMapMember" inventory) member k₃ in
          let (ceiling, bound, positive, fits) =
            is_positive_uint32-eq (get_or_null field capacities) (not-false _ p) in
          record {
            manifest = manifest;
            capacities = capacities;
            inventory = inventory;
            ceiling = ceiling;
            manifest_read = r;
            inventory_read = q;
            declares = d;
            bound = bound;
            positive = positive;
            fits = fits;
            same_app = names_app-same inventory (get_or_null "name" manifest) named;
            member_named = member_named;
            member_valid = is_map_member-IsMember member valid;
          }

  swift_image-IsConfigured :
      swift_image host manifest_path inventory_path ≡ ok (swift_configured member)
      → IsConfigured host manifest_path inventory_path member
  unfolding swift_image
  swift_image-IsConfigured h =
      let (manifest, r, k) = >>=-eq-ok (read_object host manifest_path) _ h in
      let (capacities, c, l) =
        >>=-eq-ok (require_object (as_object (get_or_null "capacities" manifest)) _) _ k in
      ceiling_policy-IsConfigured manifest capacities r
        (require_object-eq (get_or_null "capacities" manifest) _ capacities c) l

-- What `swift-configured:<member>` means: both documents were read, the manifest declares a positive
-- 32-bit ceiling, the inventory is of the same application, and its expectedMapMember is an object
-- file's plain name.
pub classify-IsConfigured :
    (host : Host) (cache_path manifest_path inventory_path member : String)
    → classify host cache_path manifest_path inventory_path ≡ ok (swift_configured member)
    → IsConfigured host manifest_path inventory_path member
unfolding classify carrier_image
classify-IsConfigured host cache_path manifest_path inventory_path member h =
    let (lines, r, k) = >>=-eq-ok (read_lines (host.read_text cache_path)) _ h in
    let (on, s, l) = >>=-eq-ok (scenario (values_of cache_key lines)) _ k in
    elim (Bool-cases on) [
      | inl e ↦ absurd (ground arith)
      | inr e ↦ swift_image-IsConfigured host manifest_path inventory_path member (rw e at l)
    ]

map_member-ne-c_only : (v : Json) → map_member v ≢ ok c_only
unfolding map_member
map_member-ne-c_only v h = ground arith

ceiling_policy-ne-c_only :
    (host : Host) (inventory_path : String) (manifest capacities : Fields)
    → ceiling_policy host inventory_path manifest capacities ≢ ok c_only
unfolding ceiling_policy swift_policy
ceiling_policy-ne-c_only host inventory_path manifest capacities h =
    elim (Bool-cases (has_key field capacities)) [
      | inl e ↦
          let (p, k) = reject_if-eq-ok _ _ _ (rw e at h) in
          let (inventory, q, l) = >>=-eq-ok (read_object host inventory_path) _ k in
          let (named, m) =
            reject_if-eq-ok (not (names_app inventory (get_or_null "name" manifest)))
              "%s must be schemaVersion 1 for selected app %r"
              (map_member (get_or_null "expectedMapMember" inventory)) l in
          map_member-ne-c_only (get_or_null "expectedMapMember" inventory) m
      | inr e ↦ never (rw e at h)
    ]
  where
    never : ok swift_not_configured ≢ ok c_only
    never k = cc

swift_image-ne-c_only :
    (host : Host) (manifest_path inventory_path : String)
    → swift_image host manifest_path inventory_path ≢ ok c_only
unfolding swift_image
swift_image-ne-c_only host manifest_path inventory_path h =
    let (manifest, r, k) = >>=-eq-ok (read_object host manifest_path) _ h in
    let (capacities, c, l) =
      >>=-eq-ok
        (require_object (as_object (get_or_null "capacities" manifest))
          "%s capacities must be an object")
        _ k in
    ceiling_policy-ne-c_only host inventory_path manifest capacities l

-- The verdict `c-only` rests on the CMake cache alone: with the same cache it is the verdict
-- whatever the manifest and the inventory are, readable or not.
pub classify-c_only :
    (host other : Host) (cache manifest_path inventory_path other_manifest other_inventory : String)
    → host.read_text cache ≡ other.read_text cache
    → classify host cache manifest_path inventory_path ≡ ok c_only
    → classify other cache other_manifest other_inventory ≡ ok c_only
unfolding classify
classify-c_only host other cache manifest_path inventory_path other_manifest other_inventory same
      h =
    let (lines, r, k) = >>=-eq-ok (read_lines (host.read_text cache)) _ h in
    let (on, s, l) = >>=-eq-ok (scenario (values_of cache_key lines)) _ k in
    elim (Bool-cases on) [
      | inl e ↦ rw (← same, r, s, e) (rw e at l)
      | inr e ↦ absurd (swift_image-ne-c_only host manifest_path inventory_path (rw e at l))
    ]
