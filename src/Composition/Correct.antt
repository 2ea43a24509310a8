-- ===== src/Composition/Correct.antt =====
-- What a valid selection guarantees.
use axoloty_embedded.Prelude.{
  ◌≡◌, true, false, not, String, arith, not-false, &&_both, refl, Bool, str_eq,
}
use mathlib.Core.Path.{subst}
use axoloty_embedded.Prelude.Int.{pos}
use axoloty_embedded.Outcome.{ok, >>=-eq-ok, ok-eq, reject_if-eq-ok, reject_if}
use axoloty_embedded.Composition.{
  get_or_null, Requirements, int, Json, validate_composition, obj, Repository, read_manifest,
  check_profile, axis_manifest, check_wire_profile, check_core, axis_directory, path_join,
  string_at, profile_schema, profile_keys,
}
use axoloty_embedded.Json.{Fields, nonempty_string, py_eq-str, str, null, bool, float, arr, py_eq}
use axoloty_embedded.Release.Fields.{keys_within}
use axoloty_embedded.Composition.Suits.{Suits, check_selection-Suits}

-- The manifest that the profile selects for an axis: it stands in the directory of that name, and
-- has the name itself.
pub record Selects (repository : Repository) (root : String) (profile : Fields)
    (field axis filename : String) (manifest : Fields) : Type 0 where
  pub selected : String
  pub chosen : get_or_null field profile ≡ str selected
  pub not_empty : str_eq selected "" ≡ false
  pub found :
      read_manifest repository (path_join (path_join (path_join root axis) selected) filename)
      ≡ ok manifest
  pub named : get_or_null "name" manifest ≡ str selected

-- The profile and the three manifests that it selects are read, and they suit each other.
pub record Fits (repository : Repository) (root profile_path : String) (r : Requirements)
    : Type 0 where
  pub profile : Fields
  pub application : Fields
  pub platform : Fields
  pub transport : Fields
  pub profile_read : read_manifest repository profile_path ≡ ok profile
  pub application_selected :
      Selects repository root profile "application" "Applications" "app.json" application
  pub platform_selected :
      Selects repository root profile "platform" "Platforms" "platform.json" platform
  pub transport_selected :
      Selects repository root profile "transport" "Transports" "transport.json" transport
  pub suits : Suits application platform transport r

nonempty-chosen :
    (v : Json) → nonempty_string v ≡ true → (s : String) × (v ≡ str s) × (str_eq s "" ≡ false)
unfolding nonempty_string
nonempty-chosen (str s) h = (s, refl, not-true h)
  where
    not-true : {b : Bool} → not b ≡ true → b ≡ false
    not-true k = ground arith
nonempty-chosen null h = absurd (cc)
nonempty-chosen (bool b) h = absurd (cc)
nonempty-chosen (int n) h = absurd (cc)
nonempty-chosen (float b) h = absurd (cc)
nonempty-chosen (arr xs) h = absurd (cc)
nonempty-chosen (obj fs) h = absurd (cc)

check_profile-chosen :
    (profile : Fields)
    → check_profile profile ≡ ok tt
    → (nonempty_string (get_or_null "application" profile) ≡ true)
      × (nonempty_string (get_or_null "platform" profile) ≡ true)
      × (nonempty_string (get_or_null "transport" profile) ≡ true)
unfolding check_profile
check_profile-chosen profile h =
    let (a, h₁) =
      reject_if-eq-ok (not (py_eq (profile_schema profile) (int (pos 1))))
        "unsupported profile schema in %s" _ h in
    let (b, h₂) =
      reject_if-eq-ok (not (keys_within profile_keys profile)) "%s has unknown top-level key: %s" _
        h₁ in
    let (p, rest) =
      &&_both (nonempty_string (get_or_null "application" profile)) _
        (not-false _ (refused _ "%s must select exactly one %s" h₂)) in
    let (q, rest') = &&_both (nonempty_string (get_or_null "platform" profile)) _ rest in
    (p, q, (&&_both (nonempty_string (get_or_null "transport" profile)) true rest').0)
  where
    refused : (b : Bool) (message : String) → reject_if b message ≡ ok tt → b ≡ false
    refused b message k = ground arith

string_at-eq :
    (field : String) (profile : Fields) (s : String)
    → get_or_null field profile ≡ str s
    → string_at field profile ≡ s
string_at-eq field profile s e = rw (e, string_at) refl

axis_manifest-Selects :
    (repository : Repository) (root : String) (profile : Fields) (field axis filename : String)
    (manifest : Fields)
    → nonempty_string (get_or_null field profile) ≡ true
    → axis_manifest repository
        (axis_directory root axis (string_at field profile))
        filename
        (get_or_null field profile)
      ≡ ok manifest
    → Selects repository root profile field axis filename manifest
unfolding axis_manifest
axis_manifest-Selects repository root profile field axis filename manifest n h =
    let (selected, e, f) = nonempty-chosen (get_or_null field profile) n in
    let (found, a, h₁) =
      >>=-eq-ok
        (read_manifest repository
          (path_join (axis_directory root axis (string_at field profile)) filename))
        _ h in
    let (b, h₂) =
      reject_if-eq-ok (not (py_eq (get_or_null "schemaVersion" found) (int (pos 1))))
        "unsupported %s manifest schema: %s" _ h₁ in
    let (c, h₃) =
      reject_if-eq-ok (not (py_eq (get_or_null "name" found) (get_or_null field profile)))
        "%s name does not match selected %s '%s'" _ h₂ in
    let named =
      py_eq-str (get_or_null "name" found) selected
        (subst (λ v. py_eq (get_or_null "name" found) v ≡ true) e (not-false _ c)) in
    subst (Selects repository root profile field axis filename) (ok-eq h₃) (record {
      selected = selected;
      chosen = e;
      not_empty = f;
      found =
          subst
            (λ s.
              read_manifest repository (path_join (path_join (path_join root axis) s) filename)
              ≡ ok found)
            (string_at-eq field profile selected e) a;
      named = named;
    })

-- If a selection is valid, then the profile is read, and the three manifests of its application,
-- platform and transport are those in the directories of these names, which they bear themselves;
-- the result is what the application manifest asks for; every capability that it requires stands in
-- the catalog and is offered by the platform or transport manifest, and its topic and payload
-- capacities are positive, at most the transport's ceilings, and these are below 2^32.
pub validate_composition-Fits :
    (repository : Repository) (root profile_path : String) (r : Requirements)
    → validate_composition repository root profile_path ≡ ok r
    → Fits repository root profile_path r
unfolding validate_composition
validate_composition-Fits repository root profile_path r h =
    let (profile, a, h₁) = >>=-eq-ok (read_manifest repository profile_path) _ h in
    let (checked, b, h₂) = >>=-eq-ok (check_profile profile) _ h₁ in
    let (application, c, h₃) = >>=-eq-ok (axis_manifest repository _ _ _) _ h₂ in
    let (platform, d, h₄) = >>=-eq-ok (axis_manifest repository _ _ _) _ h₃ in
    let (transport, e, h₅) = >>=-eq-ok (axis_manifest repository _ _ _) _ h₄ in
    let (wire, f, h₆) = >>=-eq-ok (check_wire_profile transport) _ h₅ in
    let (core, g, h₇) = >>=-eq-ok (check_core repository root profile) _ h₆ in
    let (x, y, z) = check_profile-chosen profile b in
    record {
      profile = profile;
      application = application;
      platform = platform;
      transport = transport;
      profile_read = a;
      application_selected =
          axis_manifest-Selects repository root profile "application" "Applications" "app.json"
            application x c;
      platform_selected =
          axis_manifest-Selects repository root profile "platform" "Platforms" "platform.json"
            platform y d;
      transport_selected =
          axis_manifest-Selects repository root profile "transport" "Transports" "transport.json"
            transport z e;
      suits = check_selection-Suits repository _ application platform transport r h₇;
    }
