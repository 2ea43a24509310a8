-- ===== src/Release/Required/Correct.antt =====
-- What it means that no problem is found with the required checks.
use axoloty_embedded.Prelude.{
  ℕ, ◌≡◌, ◌≤◌, ◌<◌, refl, Bool, true, false, String, Option, none, some, List, [], ◌∷◌, All, length,
  arith, Bool-cases, inl, inr, ltb, ap, ◌∙◌, ◌⊎◌, select,
}
use mathlib.Core.Path.{subst}
use axoloty_embedded.Json.{bool, float, obj, null, py_eq, py_eq-str, one_of, get_or_null}
use axoloty_embedded.Prelude.Int.{pos, negsuc}
use axoloty_embedded.Json.{bool, nil, null, float, obj}
use axoloty_embedded.Outcome.{ok, >>=-eq-ok, ok-eq}
use axoloty_embedded.Release.Tree.{Tree, append-eq-nil, in_set-eq, objects}
use axoloty_embedded.Release.Required.{
  judge, Build, stale_problem, Json, field_of, Fields, accepted_of, str, accepts, observed_of, int,
  keep_if, records_of, count_of, check_problems, known_artifact, named_check, one_required,
  each_required, arr, required_check_problems, counted, malformed, elements, cons,
  is_nonempty_string, in_set,
}
use axoloty_embedded.Prelude.Text.{AreDistinct}
use axoloty_embedded.Release.Required.Accepted.{
  Accepted, RanOn, accepts-Accepted, in_pair, observed_of-RanOn,
}

-- The entries of a check.
abbrev pub named_records : String → List Json → List Fields
named_records check entries =
    select (λ entry. py_eq (get_or_null "check" entry) (str check)) (objects entries)

-- A required check that the evidence satisfies: it is well formed, every record of it is accepted
-- for this build, and the records and the units that they ran on are enough.
pub record Satisfied (tree : Tree) (build : Build) (entries : List Json) (required : Json)
    : Type 0 where
  pub check : String
  pub count : ℕ
  pub units : ℕ
  pub devices : List String
  pub named : field_of "check" required ≡ str check
  pub not_blank : is_nonempty_string (str check) ≡ true
  pub known :
      (field_of "artifact" required ≡ str "release")
      ⊎ (field_of "artifact" required ≡ str "variant")
  pub counted : field_of "records" required ≡ int (pos count)
  pub ran_on : field_of "units" required ≡ int (pos units)
  pub some_records : 0 < count
  pub some_units : 0 < units
  pub accepted :
      All (Accepted tree build (field_of "artifact" required)) (named_records check entries)
  pub enough_records : count ≤ length (named_records check entries)
  pub distinct : AreDistinct devices
  pub on_devices : All (RanOn (named_records check entries)) devices
  pub enough_units : units ≤ length devices

module _ (tree : Tree) (build : Build) (artifact : Json) where
  -- A kept list is no longer, and one of the same length keeps every entry.
  record Kept (records kept : List Fields) : Type 0 where
    shorter : length kept ≤ length records
    whole :
        length kept ≡ length records → (kept ≡ records) × All (Accepted tree build artifact) records

  keep_if-Kept :
      (b : Bool) (entry : Fields) (records kept : List Fields)
      → accepts tree build artifact entry ≡ ok b
      → Kept records kept
      → Kept (entry ∷ records) (keep_if b entry kept)
  keep_if-Kept true entry records kept e k = record {
    shorter = omega (arith, k.shorter);
    whole = λ same.
        let (p, q) = k.whole (omega (arith, same)) in
        (ap (λ r. entry ∷ r) p, (accepts-Accepted tree build artifact entry e, q));
  }
  keep_if-Kept false entry records kept e k = record {
    shorter = omega (arith, k.shorter);
    whole = λ same. absurd (omega (arith, same, k.shorter));
  }

  accepted_of-Kept :
      (records kept : List Fields)
      → accepted_of tree build artifact records ≡ ok kept
      → Kept records kept
  unfolding accepted_of
  accepted_of-Kept [] kept h =
      subst (λ k. Kept [] k) (ok-eq h)
        (record { shorter = omega arith; whole = λ same. (refl, tt) })
  accepted_of-Kept (entry ∷ records) kept h =
      let (b, e, k) = >>=-eq-ok (accepts tree build artifact entry) _ h in
      let (rest, r, l) = >>=-eq-ok (accepted_of tree build artifact records) _ k in
      subst (λ k. Kept (entry ∷ records) k) (ok-eq l)
        (keep_if-Kept b entry records rest e (accepted_of-Kept records rest r))

judge-none :
    (build : Build) (artifact : Json) (count units : ℕ) (records accepted : List Fields)
    → judge build artifact count units records accepted ≡ []
    → (length accepted ≡ length records)
      × (count ≤ length accepted)
      × (units ≤ length (observed_of accepted))
unfolding judge stale_problem
judge-none build artifact count units records accepted h = ground arith

count_of-eq : (v : Json) (n : ℕ) → count_of v ≡ some n → (v ≡ int (pos n)) × (0 < n)
count_of-eq (int (pos k)) n h = elim (Bool-cases (ltb 0 k)) [
  | inl e ↦ (ground arith, ground arith)
  | inr e ↦ absurd (ground arith)
]
count_of-eq (int (negsuc k)) n h = absurd (cc)
count_of-eq null n h = absurd (cc)
count_of-eq (bool b) n h = absurd (cc)
count_of-eq (float b) n h = absurd (cc)
count_of-eq (str s) n h = absurd (cc)
count_of-eq (arr xs) n h = absurd (cc)
count_of-eq (obj fs) n h = absurd (cc)

module _ (tree : Tree) (build : Build) (entries : List Json) (required : Json) where
  satisfied :
      (check : String) (count units : ℕ) (kept : List Fields)
      → (field_of "check" required ≡ str check) × (is_nonempty_string (str check) ≡ true)
      → (field_of "artifact" required ≡ str "release")
        ⊎ (field_of "artifact" required ≡ str "variant")
      → (field_of "records" required ≡ int (pos count)) × (0 < count)
      → (field_of "units" required ≡ int (pos units)) × (0 < units)
      → Kept tree build (field_of "artifact" required) (records_of check entries) kept
      → judge build (field_of "artifact" required) count units (records_of check entries) kept ≡ []
      → Satisfied tree build entries required
  unfolding records_of
  satisfied check count units kept n known c u k h =
      let (same, enough, ran) =
        judge-none build (field_of "artifact" required) count units (records_of check entries) kept
          h in
      let (p, q) = k.whole same in
      let (distinct, on_devices) = observed_of-RanOn (records_of check entries) in
      record {
        check = check;
        count = count;
        units = units;
        devices = observed_of (records_of check entries);
        named = n.0;
        not_blank = n.1;
        known = known;
        distinct = distinct;
        on_devices = on_devices;
        counted = c.0;
        ran_on = u.0;
        some_records = c.1;
        some_units = u.1;
        accepted = q;
        enough_records = omega (arith, same, enough);
        enough_units = subst (λ r. units ≤ length (observed_of r)) p ran;
      }

  counted-Satisfied :
      (check : String) (count units : Option ℕ)
      → (field_of "check" required ≡ str check) × (is_nonempty_string (str check) ≡ true)
      → (field_of "artifact" required ≡ str "release")
        ⊎ (field_of "artifact" required ≡ str "variant")
      → count_of (field_of "records" required) ≡ count
      → count_of (field_of "units" required) ≡ units
      → counted tree build entries (field_of "artifact" required) check count units ≡ ok []
      → Satisfied tree build entries required
  unfolding check_problems
  counted-Satisfied check (some count) (some units) n known c u h =
      let (kept, e, k) =
        >>=-eq-ok (accepted_of tree build (field_of "artifact" required) (records_of check entries))
          _ h in
      satisfied check count units kept n known (count_of-eq (field_of "records" required) count c)
        (count_of-eq (field_of "units" required) units u)
        (accepted_of-Kept tree build (field_of "artifact" required) (records_of check entries) kept
          e)
        (ok-eq k)
  counted-Satisfied check none units n known c u h = absurd (cc)
  counted-Satisfied check (some count) none n known c u h = absurd (cc)

  known-Satisfied :
      (check : String) (known : Bool)
      → (field_of "check" required ≡ str check) × (is_nonempty_string (str check) ≡ true)
      → one_of (field_of "artifact" required) (str "release" ∷ str "variant" ∷ []) ≡ known
      → known_artifact tree build entries required check known ≡ ok []
      → Satisfied tree build entries required
  known-Satisfied check true n k h =
      counted-Satisfied check _ _ n
        (both (in_pair (field_of "artifact" required) (str "variant") "release" k)) refl refl h
    where
      both :
          (field_of "artifact" required ≡ str "release")
            ⊎ (py_eq (field_of "artifact" required) (str "variant") ≡ true)
          → (field_of "artifact" required ≡ str "release")
            ⊎ (field_of "artifact" required ≡ str "variant")
      both (inl e) = inl e
      both (inr e) = inr (py_eq-str (field_of "artifact" required) "variant" e)
  known-Satisfied check false n k h = absurd (cc)

  named-Satisfied :
      (v : Json)
      → field_of "check" required ≡ v
      → named_check tree build entries required v ≡ ok []
      → Satisfied tree build entries required
  named-Satisfied (str check) n h = elim (Bool-cases (is_nonempty_string (str check))) [
    | inl e ↦
        let (known, r, k) =
          >>=-eq-ok (in_set (field_of "artifact" required) (str "release" ∷ str "variant" ∷ [])) _
            (rw e at h) in
        known-Satisfied check known (n, e)
          (in_set-eq (field_of "artifact" required) (str "release" ∷ str "variant" ∷ []) r) k
    | inr e ↦ absurd (bad (rw e at h))
  ]
    where
      bad : ok malformed ≡ ok [] → ⊥
      bad q = cc
  named-Satisfied (int n) e h = absurd (cc)
  named-Satisfied null e h = absurd (cc)
  named-Satisfied (bool b) e h = absurd (cc)
  named-Satisfied (float b) e h = absurd (cc)
  named-Satisfied (arr xs) e h = absurd (cc)
  named-Satisfied (obj fs) e h = absurd (cc)

  one_required-Satisfied :
      one_required tree build entries required ≡ ok [] → Satisfied tree build entries required
  unfolding one_required
  one_required-Satisfied h = named-Satisfied (field_of "check" required) refl h

each_required-Satisfied :
    (tree : Tree) (build : Build) (entries checks : List Json)
    → each_required tree build entries checks ≡ ok []
    → All (Satisfied tree build entries) checks
unfolding each_required
each_required-Satisfied tree build entries [] h = tt
each_required-Satisfied tree build entries (required ∷ checks) h =
    let (first, p, k) = >>=-eq-ok (one_required tree build entries required) _ h in
    let (others, q, l) = >>=-eq-ok (each_required tree build entries checks) _ k in
    let (a, b) = append-eq-nil first others (ok-eq l) in
    (
      one_required-Satisfied tree build entries required (p ∙ ap (λ ps. ok ps) a),
      each_required-Satisfied tree build entries checks (q ∙ ap (λ ps. ok ps) b),
    )

-- The required checks that a value holds.
abbrev pub checks_of : Json → List Json
checks_of (arr xs) = elements xs
checks_of _ = []

-- If `required_check_problems` returns without a problem, then `required_checks` is a list of at
-- least one check, and each check is satisfied: it has a name that is not blank, an artifact that
-- is release or variant, and positive numbers of records and units; every record of it among the
-- entries passed on a device with the build's core, for a release on its image, for a variant on an
-- image with its firmware revision if it has one; and the records are at least as many as it asks
-- for, and they name at least as many distinct devices.
pub required_check_problems-Satisfied :
    (tree : Tree) (build : Build) (required_checks : Json) (entries : List Json)
    → required_check_problems tree build required_checks entries ≡ ok []
    → (0 < length (checks_of required_checks))
      × All (Satisfied tree build entries) (checks_of required_checks)
unfolding required_check_problems
required_check_problems-Satisfied tree build (arr (cons required rest)) entries h =
    (omega arith, each_required-Satisfied tree build entries (required ∷ elements rest) h)
required_check_problems-Satisfied tree build (arr nil) entries h = absurd (cc)
required_check_problems-Satisfied tree build (int n) entries h = absurd (cc)
required_check_problems-Satisfied tree build null entries h = absurd (cc)
required_check_problems-Satisfied tree build (bool b) entries h = absurd (cc)
required_check_problems-Satisfied tree build (float b) entries h = absurd (cc)
required_check_problems-Satisfied tree build (str s) entries h = absurd (cc)
required_check_problems-Satisfied tree build (obj fs) entries h = absurd (cc)
