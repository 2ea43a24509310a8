-- ===== src/Release/Required/Accepted.antt =====
-- What a record that counts for a required check shows.
use axoloty_embedded.Prelude.{
  ◌≡◌, refl, true, false, String, List, [], ◌∷◌, All, arith, Bool-cases, inl, inr, ◌∙◌, In, any,
  str_eq, ◌||◌, ||_cases, &&_both, ◌⊎◌,
}
use axoloty_embedded.Json.{
  bool, float, obj, null, get_or_null, is_null, py_eq, py_eq-str, py_eq-null, one_of,
}
use axoloty_embedded.Json.{bool, null, float, obj}
use axoloty_embedded.Outcome.{ok, >>=-eq-ok, ok-eq}
use axoloty_embedded.Release.Tree.{Tree, Text, shown_at, in_set-eq}
use axoloty_embedded.Release.Required.{
  Build, Json, Fields, str, accepts, observed_of, int, arr, is_nonempty_string, in_set, is_text,
  image_matches, same_revision, add_device,
}
use axoloty_embedded.Prelude.Text.{codes, is_hex, AreDistinct}
use axoloty_embedded.Prelude.Text.Laws.{codes_eq-true}

-- A value is a text with these characters.
abbrev pub Spells : Json → Text → Type 0
Spells v t = (s : String) × (v ≡ str s) × (codes s ≡ t)

-- One of a device that is named by a text that is not blank.
abbrev pub RanOn : List Fields → String → Type 0
RanOn records device =
    (entry : Fields) × In entry records
    × (get_or_null "device" entry ≡ str device)
    × (is_nonempty_string (str device) ≡ true)

-- A record that counts for this build: it passed on a device with this core; for a release it ran
-- this image, and for a variant an image of this firmware revision, where the build has one.
pub record Accepted (tree : Tree) (build : Build) (artifact : Json) (entry : Fields) : Type 0 where
  pub on_device : (get_or_null "tier" entry ≡ str "device") ⊎ (get_or_null "tier" entry ≡ null)
  pub passed : get_or_null "status" entry ≡ str "passed"
  pub core : Spells (get_or_null "coreRevision" entry) build.core_sha
  pub image : artifact ≡ str "release" → Spells (get_or_null "firmwareSHA256" entry) build.image_sha
  pub other_image :
      artifact ≡ str "variant"
      → (is_hex 64 (shown_at tree "firmwareSHA256" entry) ≡ true)
        × ((build.firmware_revision ≡ null)
            ⊎ (py_eq (get_or_null "firmwareRevision" entry) build.firmware_revision ≡ true))

pub Spells-is_text : (t : Text) (v : Json) → is_text t v ≡ true → Spells v t
Spells-is_text t (str s) h = (s, refl, codes_eq-true (codes s) t h)
Spells-is_text t null h = absurd (cc)
Spells-is_text t (bool b) h = absurd (cc)
Spells-is_text t (int n) h = absurd (cc)
Spells-is_text t (float b) h = absurd (cc)
Spells-is_text t (arr xs) h = absurd (cc)
Spells-is_text t (obj fs) h = absurd (cc)

null_eq : (v : Json) → is_null v ≡ true → v ≡ null
null_eq v h = ground arith

-- A value in a set of a text and another value.
pub in_pair :
    (v w : Json) (s : String) → one_of v (str s ∷ w ∷ []) ≡ true → (v ≡ str s) ⊎ (py_eq v w ≡ true)
unfolding one_of
in_pair v w s h = elim (||_cases (py_eq v (str s)) (py_eq v w || false) h) [
  | inl e ↦ inl (py_eq-str v s e)
  | inr e ↦ inr (ground arith)
]

pub device_or_null :
    (v : Json) → one_of v (str "device" ∷ null ∷ []) ≡ true → (v ≡ str "device") ⊎ (v ≡ null)
device_or_null v h = elim (in_pair v null "device" h) [
  | inl e ↦ inl e
  | inr e ↦ inr (py_eq-null v e)
]

module _ (tree : Tree) (build : Build) where
  image_matches-release :
      (artifact : Json) (entry : Fields)
      → image_matches tree build artifact entry ≡ true
      → artifact ≡ str "release"
      → Spells (get_or_null "firmwareSHA256" entry) build.image_sha
  unfolding image_matches py_eq
  image_matches-release artifact entry h e =
      Spells-is_text build.image_sha (get_or_null "firmwareSHA256" entry) (rw e at h)

  image_matches-variant :
      (artifact : Json) (entry : Fields)
      → image_matches tree build artifact entry ≡ true
      → artifact ≡ str "variant"
      → (is_hex 64 (shown_at tree "firmwareSHA256" entry) ≡ true)
        × ((build.firmware_revision ≡ null)
            ⊎ (py_eq (get_or_null "firmwareRevision" entry) build.firmware_revision ≡ true))
  unfolding image_matches same_revision py_eq
  image_matches-variant artifact entry h e =
      let (hex, same) = &&_both _ _ (rw e at h) in
      (
        hex,
        elim (||_cases (is_null build.firmware_revision) _ same) [
          | inl n ↦ inl (null_eq build.firmware_revision n)
          | inr r ↦ inr r
        ],
      )

  pub accepts-Accepted :
      (artifact : Json) (entry : Fields)
      → accepts tree build artifact entry ≡ ok true
      → Accepted tree build artifact entry
  unfolding accepts
  accepts-Accepted artifact entry h =
      let (on_device, p, k) =
        >>=-eq-ok (in_set (get_or_null "tier" entry) (str "device" ∷ null ∷ [])) _ h in
      let (before_image, image) = &&_both _ _ (ok-eq k) in
      let (before_core, core) = &&_both _ _ before_image in
      let (d, status) = &&_both _ _ before_core in
      record {
        on_device =
            device_or_null (get_or_null "tier" entry)
              (in_set-eq (get_or_null "tier" entry) (str "device" ∷ null ∷ []) p ∙ d);
        passed = py_eq-str (get_or_null "status" entry) "passed" status;
        core = Spells-is_text build.core_sha (get_or_null "coreRevision" entry) core;
        image = image_matches-release artifact entry image;
        other_image = image_matches-variant artifact entry image;
      }

RanOn-later :
    (entry : Fields) (records : List Fields) (device : String)
    → RanOn records device
    → RanOn (entry ∷ records) device
RanOn-later entry records device (e, m, d, n) = (e, inr m, d, n)

All-RanOn-later :
    (entry : Fields) (records : List Fields) (devices : List String)
    → All (RanOn records) devices
    → All (RanOn (entry ∷ records)) devices
All-RanOn-later entry records [] h = tt
All-RanOn-later entry records (d ∷ ds) (h, hs) =
    (RanOn-later entry records d h, All-RanOn-later entry records ds hs)

add_device-RanOn :
    (entry : Fields) (records : List Fields) (device : Json) (names : List String)
    → get_or_null "device" entry ≡ device
    → is_nonempty_string device ≡ true
    → AreDistinct names × All (RanOn (entry ∷ records)) names
    → AreDistinct (add_device device names)
      × All (RanOn (entry ∷ records)) (add_device device names)
add_device-RanOn entry records (str name) names e n (d, a) =
    elim (Bool-cases (any (str_eq name) names)) [
      | inl f ↦ rw f (d, a)
      | inr f ↦ rw f ((f, d), ((entry, inl refl, e, n), a))
    ]
add_device-RanOn entry records null names e n h = h
add_device-RanOn entry records (bool b) names e n h = h
add_device-RanOn entry records (int k) names e n h = h
add_device-RanOn entry records (float b) names e n h = h
add_device-RanOn entry records (arr xs) names e n h = h
add_device-RanOn entry records (obj fs) names e n h = h

pub observed_of-RanOn :
    (records : List Fields)
    → AreDistinct (observed_of records) × All (RanOn records) (observed_of records)
unfolding observed_of
observed_of-RanOn [] = (tt, tt)
observed_of-RanOn (entry ∷ records) =
    let (d, a) = observed_of-RanOn records in
    let later = All-RanOn-later entry records (observed_of records) a in
    elim (Bool-cases (is_nonempty_string (get_or_null "device" entry))) [
      | inl e ↦ rw e (
          add_device-RanOn entry records (get_or_null "device" entry) (observed_of records) refl e
            (d, later))
      | inr e ↦ rw e (d, later)
    ]
