-- ===== src/Release/Manifest/Carried.antt =====
-- What the match of the cited evidence with the image of a manifest shows.
use axoloty_embedded.Prelude.{
  ◌≡◌, refl, true, false, String, List, [], ◌∷◌, In, ap, inl, inr, ◌⊎◌, Bool-cases, &&_both,
  ||_cases, ◌∙◌,
}
use axoloty_embedded.Prelude.Text.{codes}
use axoloty_embedded.Outcome.{Outcome, ok, >>=-eq-ok, ok-eq}
use axoloty_embedded.Json.{
  Fields, Json, get_or_null, obj, str, bool, int, float, arr, null, py_eq-str,
}
use axoloty_embedded.Release.Tree.{
  Tree, Problems, Text, objects, load, field_of, is_nonempty_string,
}
use axoloty_embedded.Release.Identity.{axoloty_sha, image_sha}
use axoloty_embedded.Release.Paths.{absolute_parts, is_within, slashed}
use axoloty_embedded.Release.Evidence.{validate_evidence}
use axoloty_embedded.Release.Manifest.{
  Match, carries, record_match, path_match, entry_match, evidence_matches,
}
use axoloty_embedded.Release.Required.Accepted.{Spells, Spells-is_text, device_or_null}

-- A citation that carries the image of the manifest: it says passed, this Axoloty revision and this
-- image, and names a file below docs/evidence whose record is one of a device.
pub record Carries (tree : Tree) (repo_root : Text) (manifest entry : Fields) : Type 0 where
  pub path : String
  pub document : Json
  pub passed : get_or_null "status" entry ≡ str "passed"
  pub core : Spells (get_or_null "coreRevision" entry) (axoloty_sha tree manifest)
  pub image : Spells (get_or_null "firmwareSHA256" entry) (image_sha tree manifest)
  pub named : get_or_null "path" entry ≡ str path
  pub inside :
      is_within
        (absolute_parts repo_root (codes path))
        (absolute_parts repo_root (codes "docs/evidence"))
      ≡ true
  pub loaded : load tree (slashed (absolute_parts repo_root (codes path))) ≡ ok document
  pub on_device : (field_of "tier" document ≡ str "device") ⊎ (field_of "tier" document ≡ null)

module _ (tree : Tree) (repo_root : Text) (manifest : Fields) where
  record_match-Carries :
      (entry : Fields) (document : Json) (path : String) (problems : Problems)
      → get_or_null "path" entry ≡ str path
      → is_within
          (absolute_parts repo_root (codes path))
          (absolute_parts repo_root (codes "docs/evidence"))
        ≡ true
      → load tree (slashed (absolute_parts repo_root (codes path))) ≡ ok document
      → record_match tree manifest entry document ≡ ok (true, problems)
      → Carries tree repo_root manifest entry
  unfolding record_match carries
  record_match-Carries entry document path problems n i l h =
      let (found, p, k) = >>=-eq-ok (validate_evidence tree document) _ h in
      let (carrying, tier) = &&_both _ _ (ap (λ (m : Match). m.0) (ok-eq k)) in
      let (before_image, image) = &&_both _ _ carrying in
      let (status, core) = &&_both _ _ before_image in
      record {
        path = path;
        document = document;
        passed = py_eq-str (get_or_null "status" entry) "passed" status;
        core = Spells-is_text (axoloty_sha tree manifest) (get_or_null "coreRevision" entry) core;
        image = Spells-is_text (image_sha tree manifest) (get_or_null "firmwareSHA256" entry) image;
        named = n;
        inside = i;
        loaded = l;
        on_device = device_or_null (field_of "tier" document) tier;
      }

  path_match-Carries :
      (entry : Fields) (path : String) (problems : Problems)
      → get_or_null "path" entry ≡ str path
      → path_match tree repo_root manifest entry (codes path) ≡ ok (true, problems)
      → Carries tree repo_root manifest entry
  unfolding path_match
  path_match-Carries entry path problems n h =
      let candidate = absolute_parts repo_root (codes path) in
      elim (Bool-cases (is_within candidate (absolute_parts repo_root (codes "docs/evidence")))) [
        | inr e ↦ absurd (unmatched _ (rw e at h))
        | inl e ↦ elim (Bool-cases (tree.is_file (slashed candidate))) [
          | inr f ↦ absurd (unmatched _ (rw f at (rw e at h)))
          | inl f ↦
              let (document, l, k) =
                >>=-eq-ok (load tree (slashed candidate)) _ (rw f at (rw e at h)) in
              record_match-Carries entry document path problems n e l k
        ]
      ]
    where
      unmatched :
          (ps : Problems) → ◌≡◌ {A = Outcome Match} (ok (false, ps)) (ok (true, problems)) → ⊥
      unmatched ps q = let b : false ≡ true = ap (λ (m : Match). m.0) (ok-eq q) in cc

  entry_match-Carries :
      (entry : Fields) (v : Json) (problems : Problems)
      → get_or_null "path" entry ≡ v
      → entry_match tree repo_root manifest (obj entry) ≡ ok (true, problems)
      → Carries tree repo_root manifest entry
  unfolding entry_match
  entry_match-Carries entry (str path) problems n h =
      elim (Bool-cases (is_nonempty_string (str path))) [
        | inl e ↦ path_match-Carries entry path problems n (rw e at (rw (n, entry_match) at h))
        | inr e ↦ absurd (unmatched _ (rw e at (rw (n, entry_match) at h)))
      ]
    where
      unmatched :
          (ps : Problems) → ◌≡◌ {A = Outcome Match} (ok (false, ps)) (ok (true, problems)) → ⊥
      unmatched ps q = let b : false ≡ true = ap (λ (m : Match). m.0) (ok-eq q) in cc
  entry_match-Carries entry null problems n h = absurd (cc (rw (n, entry_match) at h))
  entry_match-Carries entry (bool b) problems n h = absurd (cc (rw (n, entry_match) at h))
  entry_match-Carries entry (int k) problems n h = absurd (cc (rw (n, entry_match) at h))
  entry_match-Carries entry (float b) problems n h = absurd (cc (rw (n, entry_match) at h))
  entry_match-Carries entry (arr xs) problems n h = absurd (cc (rw (n, entry_match) at h))
  entry_match-Carries entry (obj fs) problems n h = absurd (cc (rw (n, entry_match) at h))

  Found : List Json → Type 0
  Found entries =
      (entry : Fields) × In entry (objects entries) × Carries tree repo_root manifest entry

  later_Found : (x : Json) (entries : List Json) → Found entries → Found (x ∷ entries)
  unfolding Found
  later_Found (obj fs) entries (e, m, c) = (e, inr m, c)
  later_Found null entries f = f
  later_Found (bool b) entries f = f
  later_Found (int n) entries f = f
  later_Found (float b) entries f = f
  later_Found (str s) entries f = f
  later_Found (arr xs) entries f = f

  unmatched_first :
      (first : Match) (ps : Problems)
      → ◌≡◌ {A = Outcome Match} (ok (false, ps)) (ok first)
      → first.0 ≡ true
      → ⊥
  unmatched_first first ps h e = let b : false ≡ true = ap (λ (m : Match). m.0) (ok-eq h) ∙ e in cc

  first_Found :
      (x : Json) (entries : List Json) (first : Match)
      → entry_match tree repo_root manifest x ≡ ok first
      → first.0 ≡ true
      → Found (x ∷ entries)
  unfolding Found entry_match
  first_Found (obj fs) entries (b, problems) h e =
      (fs, inl refl, entry_match-Carries fs (get_or_null "path" fs) problems refl (rw e at h))
  first_Found null entries first h e = absurd (unmatched_first first _ h e)
  first_Found (bool b) entries first h e = absurd (unmatched_first first _ h e)
  first_Found (int n) entries first h e = absurd (unmatched_first first _ h e)
  first_Found (float b) entries first h e = absurd (unmatched_first first _ h e)
  first_Found (str s) entries first h e = absurd (unmatched_first first _ h e)
  first_Found (arr xs) entries first h e = absurd (unmatched_first first _ h e)

  pub evidence_matches-Carries :
      (entries : List Json) (found : Match)
      → evidence_matches tree repo_root manifest entries ≡ ok found
      → found.0 ≡ true
      → (entry : Fields) × In entry (objects entries) × Carries tree repo_root manifest entry
  unfolding evidence_matches Found
  evidence_matches-Carries [] found h e =
      let b : false ≡ true = ap (λ (m : Match). m.0) (ok-eq h) ∙ e in absurd (cc)
  evidence_matches-Carries (x ∷ entries) found h e =
      let (first, p, k) = >>=-eq-ok (entry_match tree repo_root manifest x) _ h in
      let (rest, q, l) = >>=-eq-ok (evidence_matches tree repo_root manifest entries) _ k in
      elim (||_cases first.0 rest.0 (ap (λ (m : Match). m.0) (ok-eq l) ∙ e)) [
        | inl f ↦ first_Found x entries first p f
        | inr f ↦ later_Found x entries (evidence_matches-Carries entries rest q f)
      ]
