-- ===== src/Release/Manifest/Correct.antt =====
-- What a manifest that passes as a qualified release shows.
use axoloty_embedded.Prelude.{
  ◌≡◌, refl, Bool, true, false, not, ◌&&◌, Option, none, some, List, [], ◌∷◌, All, ap, ◌∙◌, inl,
  inr, Bool-cases, arith, map, not-false, In,
}
use axoloty_embedded.Outcome.{Outcome, ok, raised, >>=-eq-ok, ok-eq, key_error}
use axoloty_embedded.Release.Tree.{
  Tree, Problems, Text, objects, gather-eq-nil, problem_if-eq-nil, append-eq-nil,
}
use axoloty_embedded.Json.{
  Fields, Json, get_or_null, obj, py_eq, str, has_key, bool, int, float, arr, null, py_eq-str,
}
use axoloty_embedded.Release.Manifest.{
  qualified_problems, if_schema_two, is_qualified, entries_of, required_check_problems,
  records_of_profile, qualification_of, build_of, evidence_matches, declared_checks,
  is_grandfathered, cited_evidence_problems, schema_two, declared_problems, if_qualified,
  qualification_problems, load, in_set, load_revocation, is_text, qualification_parts,
  revoked_problems, certificate_problems, checked, validate, certificate_parts,
}
use axoloty_embedded.Release.Evidence.Cited.Correct.{IsCovered, cited_evidence_problems-IsCovered}
use axoloty_embedded.Release.Required.Correct.{
  Satisfied, checks_of, required_check_problems-Satisfied,
}
use axoloty_embedded.Release.Identity.{
  mode_problems, lock_core, axoloty_sha, by_mode, release_parts, axoloty_problems, schema_problems,
  profile_problems, transport_problems, embedded_problems,
}
use axoloty_embedded.Release.Manifest.Carried.{Carries, evidence_matches-Carries}
use axoloty_embedded.Release.Evidence.Cited.Citations.{Cites}

-- The evidence of a qualified manifest: the records of its profile were read, its citations agree
-- with them and leave no failed record and none of a required check out, some citation carries this
-- image, and under schema 2 each required check is satisfied by the records for this build.
pub record IsQualified (tree : Tree) (repo_root : Text) (manifest : Fields) : Type 0 where
  pub discovered : List Fields
  pub carrier : Fields
  pub qualified : get_or_null "status" (qualification_of manifest) ≡ str "qualified"
  pub read : records_of_profile tree repo_root (get_or_null "profile" manifest) ≡ ok discovered
  pub among : In carrier (objects (entries_of (qualification_of manifest)))
  pub carried : Carries tree repo_root manifest carrier
  pub cited :
      All
        (Cites (not (is_grandfathered tree manifest)) discovered)
        (objects (entries_of (qualification_of manifest)))
  pub covered :
      All
        (IsCovered
          (objects (entries_of (qualification_of manifest)))
          (get_or_null "requiredChecks" (qualification_of manifest)))
        discovered
  pub satisfied :
      schema_two manifest ≡ true
      → All
          (Satisfied tree (build_of tree manifest) (map obj discovered))
          (checks_of (get_or_null "requiredChecks" (qualification_of manifest)))

both_false : (a b : Bool) → a ≡ true → (a && not b) ≡ false → b ≡ true
both_false a b h k = ground arith

module _ (tree : Tree) (repo_root : Text) (manifest : Fields) where
  abbrev entries : List Json
  entries = entries_of (qualification_of manifest)

  abbrev required : Json
  required = get_or_null "requiredChecks" (qualification_of manifest)

  if_schema_two-Satisfied :
      (b : Bool) (discovered : List Fields)
      → if_schema_two b
          (required_check_problems tree (build_of tree manifest) required (map obj discovered))
        ≡ ok []
      → b ≡ true
      → All (Satisfied tree (build_of tree manifest) (map obj discovered)) (checks_of required)
  if_schema_two-Satisfied true discovered h t =
      (required_check_problems-Satisfied tree (build_of tree manifest) required (map obj discovered)
        h).1
  if_schema_two-Satisfied false discovered h t = absurd (cc)

  qualified_problems-IsQualified :
      (profile : Json)
      → is_qualified manifest ≡ true
      → (entry : Fields) × In entry (objects entries) × Carries tree repo_root manifest entry
      → qualified_problems tree repo_root manifest profile required entries ≡ ok []
      → IsQualified tree repo_root manifest
  unfolding qualified_problems
  qualified_problems-IsQualified profile q (carrier, among, carried) h =
      let (declared, a, k) = >>=-eq-ok (declared_checks profile) _ h in
      let (discovered, b, l) =
        >>=-eq-ok (records_of_profile tree repo_root (get_or_null "profile" manifest)) _ k in
      let (cited, c, n) =
        >>=-eq-ok
          (cited_evidence_problems entries discovered required
            (not (is_grandfathered tree manifest)))
          _ l in
      let (unmet, d, o) =
        >>=-eq-ok
          (if_schema_two (schema_two manifest)
            (required_check_problems tree (build_of tree manifest) required (map obj discovered)))
          _ n in
      let none_left =
        gather-eq-nil (declared_problems manifest required declared ∷ cited ∷ unmet ∷ [])
          (ok-eq o) in
      let (cites, covers) =
        cited_evidence_problems-IsCovered entries discovered required
          (not (is_grandfathered tree manifest)) (c ∙ ap (λ ps. ok ps) none_left.1.0) in
      record {
        discovered = discovered;
        carrier = carrier;
        qualified = py_eq-str (get_or_null "status" (qualification_of manifest)) "qualified" q;
        read = b;
        among = among;
        carried = carried;
        cited = cites;
        covered = covers;
        satisfied =
            if_schema_two-Satisfied (schema_two manifest) discovered
              (d ∙ ap (λ ps. ok ps) none_left.1.1.0);
      }

  if_qualified-eq :
      (b : Bool) (problems : Outcome Problems)
      → if_qualified b problems ≡ ok []
      → b ≡ true
      → problems ≡ ok []
  if_qualified-eq true problems h e = h
  if_qualified-eq false problems h e = absurd (cc)

  qualification_problems-IsQualified :
      (profile : Json)
      → qualification_problems tree repo_root manifest profile true ≡ ok []
      → IsQualified tree repo_root manifest
  unfolding qualification_problems
  qualification_problems-IsQualified profile h =
      let (known, a, k) =
        >>=-eq-ok
          (in_set (get_or_null "status" (qualification_of manifest))
            (str "qualified" ∷ str "unqualified" ∷ []))
          _ h in
      let (matches, m, l) = >>=-eq-ok (evidence_matches tree repo_root manifest entries) _ k in
      let (qualified, q, n) =
        >>=-eq-ok
          (if_qualified (is_qualified manifest)
            (qualified_problems tree repo_root manifest profile required entries))
          _ l in
      let none_left =
        gather-eq-nil (qualification_parts manifest true known matches qualified) (ok-eq n) in
      let named : is_qualified manifest ≡ true =
        not-false _ (problem_if-eq-nil _ _ none_left.1.1.0) in
      qualified_problems-IsQualified profile named
        (evidence_matches-Carries tree repo_root manifest entries matches m (
          both_false (is_qualified manifest) matches.0 named (problem_if-eq-nil _ _ none_left.1.0)))
        (if_qualified-eq (is_qualified manifest) _ (q ∙ ap (λ ps. ok ps) none_left.0) named)

  -- The Axoloty revision of a release is the locked one, and it names a tag.
  mode_problems-locked :
      (core : Fields)
      → mode_problems tree manifest core ≡ []
      → py_eq (get_or_null "mode" manifest) (str "release") ≡ true
      → is_text (axoloty_sha tree manifest) (get_or_null "revision" core) ≡ true
  unfolding mode_problems
  mode_problems-locked core h e = not-false _ (
      problem_if-eq-nil _ "axoloty.sha does not match the lock revision"
        (gather-eq-nil (release_parts tree manifest core) (released _ _ _ _ e h)).0)
    where
      released :
          (release preview : Bool) (released previewed : Problems)
          → release ≡ true
          → by_mode release preview released previewed ≡ []
          → released ≡ []
      released true preview done other e h = h
      released false preview done other e h = absurd (cc)

  axoloty_problems-mode :
      (core : Fields)
      → axoloty_problems tree manifest core ≡ []
      → mode_problems tree manifest core ≡ []
  unfolding axoloty_problems
  axoloty_problems-mode core h = (append-eq-nil _ (mode_problems tree manifest core) h).1

abbrev revoked_message : Outcome Problems
revoked_message = ok ("this release certificate is revoked: %s" ∷ [])

abbrev revoked_error : Outcome Problems
revoked_error = raised key_error

-- A certificate: a qualified manifest that is not revoked, whose Axoloty revision is the one of the
-- lock if it is a release.
pub record IsCertificate (tree : Tree) (repo_root manifest_path : Text) : Type 0 where
  pub manifest : Fields
  pub core : Fields
  pub loaded : load tree manifest_path ≡ ok (obj manifest)
  pub not_revoked : (load_revocation tree repo_root manifest_path).0 ≡ none
  pub evidence : IsQualified tree repo_root manifest
  pub lock : lock_core tree repo_root ≡ ok core
  pub locked :
      py_eq (get_or_null "mode" manifest) (str "release") ≡ true
      → is_text (axoloty_sha tree manifest) (get_or_null "revision" core) ≡ true

revoked_problems-none : (o : Option Fields) → revoked_problems o ≡ ok [] → o ≡ none
unfolding revoked_problems
revoked_problems-none none h = refl
revoked_problems-none (some r) h = elim (Bool-cases (has_key "reason" r)) [
  | inl e ↦ absurd (named (rw e at h))
  | inr e ↦ absurd (unnamed (rw e at h))
]
  where
    named : revoked_message ≡ ok [] → ⊥
    named q = cc

    unnamed : revoked_error ≡ ok [] → ⊥
    unnamed q = cc

certificate_problems-IsCertificate :
    (tree : Tree) (repo_root manifest_path : Text) (manifest : Fields)
    → load tree manifest_path ≡ ok (obj manifest)
    → certificate_problems tree repo_root manifest true
        (load_revocation tree repo_root manifest_path)
      ≡ ok []
    → IsCertificate tree repo_root manifest_path
unfolding certificate_problems
certificate_problems-IsCertificate tree repo_root manifest_path manifest r h =
    let revocation = load_revocation tree repo_root manifest_path in
    let (schema, a, h₁) = >>=-eq-ok (schema_problems manifest) _ h in
    let (profile, b, h₂) = >>=-eq-ok (profile_problems tree repo_root manifest) _ h₁ in
    let (transport, c, h₃) = >>=-eq-ok (transport_problems tree repo_root manifest) _ h₂ in
    let (core, d, h₄) = >>=-eq-ok (lock_core tree repo_root) _ h₃ in
    let (embedded, e, h₅) = >>=-eq-ok (embedded_problems tree repo_root manifest core) _ h₄ in
    let (qualification, f, h₆) =
      >>=-eq-ok (qualification_problems tree repo_root manifest profile.0 true) _ h₅ in
    let (revoked, g, h₇) = >>=-eq-ok (revoked_problems revocation.0) _ h₆ in
    let none_left =
      gather-eq-nil
        (certificate_parts tree manifest revocation core profile schema transport embedded
          qualification revoked)
        (ok-eq h₇) in
    record {
      manifest = manifest;
      core = core;
      loaded = r;
      not_revoked = revoked_problems-none revocation.0 (g ∙ ap (λ ps. ok ps) none_left.1.0);
      evidence =
          qualification_problems-IsQualified tree repo_root manifest profile.0
            (f ∙ ap (λ ps. ok ps) none_left.0);
      lock = d;
      locked =
          mode_problems-locked tree repo_root manifest core
            (axoloty_problems-mode tree repo_root manifest core none_left.1.1.0);
    }

checked-IsCertificate :
    (tree : Tree) (repo_root manifest_path : Text) (document : Json)
    → load tree manifest_path ≡ ok document
    → checked tree repo_root true false (load_revocation tree repo_root manifest_path) document
      ≡ ok []
    → IsCertificate tree repo_root manifest_path
unfolding checked
checked-IsCertificate tree repo_root manifest_path (obj manifest) r h =
    certificate_problems-IsCertificate tree repo_root manifest_path manifest r h
checked-IsCertificate tree repo_root manifest_path null r h = absurd (cc)
checked-IsCertificate tree repo_root manifest_path (bool b) r h = absurd (cc)
checked-IsCertificate tree repo_root manifest_path (int n) r h = absurd (cc)
checked-IsCertificate tree repo_root manifest_path (float b) r h = absurd (cc)
checked-IsCertificate tree repo_root manifest_path (str s) r h = absurd (cc)
checked-IsCertificate tree repo_root manifest_path (arr xs) r h = absurd (cc)

-- If `validate` returns no problem for a manifest that must be qualified, revoked ones not allowed,
-- then the manifest is a certificate: it is an object with status qualified and no revocation
-- record, its Axoloty revision is the lock's if its mode is release; its citations agree with
-- records of its profile, each record of the profile that is not cited did not fail and its check is
-- none of the required ones; a citation that passed has this Axoloty revision and image and names a
-- device record below docs/evidence; and under schema 2 each required check is satisfied for this
-- build.
pub validate-IsCertificate :
    (tree : Tree) (repo_root manifest_path : Text)
    → validate tree repo_root manifest_path true false ≡ ok []
    → IsCertificate tree repo_root manifest_path
unfolding validate
validate-IsCertificate tree repo_root manifest_path h =
    let (document, r, k) = >>=-eq-ok (load tree manifest_path) _ h in
    checked-IsCertificate tree repo_root manifest_path document r k
