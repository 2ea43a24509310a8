-- ===== src/Release/Required.antt =====
-- `required_check_problems` of Tools/validate-release-manifest.py: why the evidence does not
-- satisfy the checks that a qualified manifest requires.
pub mod Accepted
pub mod Correct
use axoloty_embedded.Prelude.{
  ℕ, ◌≡◌, Bool, true, false, not, ◌&&◌, ◌||◌, String, str_eq, Option, none, some, List, [], ◌∷◌,
  ◌++◌, if◌then◌else◌, leb, ltb, ◌==◌, select, any, length,
}
use axoloty_embedded.Prelude.Int.{pos}
use axoloty_embedded.Outcome.{Outcome, ok, raised, ◌>>=◌}
use axoloty_embedded.Release.Tree.{
  Problems, Tree, Text, in_set, problem_if, field_of, objects, is_nonempty_string, shown_at,
}
use axoloty_embedded.Json.{
  Json, Fields, int, is_null, py_eq, str, get_or_null, arr, null, cons, elements,
}
use axoloty_embedded.Prelude.Text.{codes_eq, is_hex, codes}

-- `isinstance(n, int) and not isinstance(n, bool) and n >= 1`
abbrev count_of : Json → Option ℕ
count_of (int (pos n)) = if ltb 0 n then some n else none
count_of _ = none

-- What the manifest and the image fix: `core_sha`, `image_sha`, `firmware_revision`.
pub record Build : Type 0 where
  pub core_sha : Text
  pub image_sha : Text
  -- null for a certificate that predates the rule
  pub firmware_revision : Json

-- `entry.get(key) == text`
abbrev pub is_text : Text → Json → Bool
is_text t (str s) = codes_eq (codes s) t
is_text t _ = false

unfoldable pub same_revision : Json → Fields → Bool
same_revision revision entry =
    is_null revision || py_eq (get_or_null "firmwareRevision" entry) revision

-- A release names the image itself; a variant runs on an image of its own.
unfoldable pub image_matches : Tree → Build → Json → Fields → Bool
image_matches tree build artifact entry =
    if py_eq artifact (str "release")
    then is_text build.image_sha (get_or_null "firmwareSHA256" entry)
    else is_hex 64 (shown_at tree "firmwareSHA256" entry)
      && same_revision build.firmware_revision entry

-- The condition of `accepted`.
unfoldable pub accepts : Tree → Build → Json → Fields → Outcome Bool
accepts tree build artifact entry = do
  on_device ← in_set (get_or_null "tier" entry) (str "device" ∷ null ∷ [])
  ok (
      on_device
      && py_eq (get_or_null "status" entry) (str "passed")
      && is_text build.core_sha (get_or_null "coreRevision" entry)
      && image_matches tree build artifact entry)

abbrev keep_if : Bool → Fields → List Fields → List Fields
keep_if true entry rest = entry ∷ rest
keep_if false entry rest = rest

unfoldable pub accepted_of : Tree → Build → Json → List Fields → Outcome (List Fields)
accepted_of tree build artifact [] = ok []
accepted_of tree build artifact (entry ∷ rest) = do
  keeps ← accepts tree build artifact entry
  kept ← accepted_of tree build artifact rest
  ok (keep_if keeps entry kept)

-- `entry.get("check") == check`
unfoldable pub records_of : String → List Json → List Fields
records_of check entries =
    select (λ entry. py_eq (get_or_null "check" entry) (str check)) (objects entries)

abbrev add_device : Json → List String → List String
add_device (str name) names = if any (str_eq name) names then names else name ∷ names
add_device _ names = names

-- `observed`: the devices, each once.
unfoldable pub observed_of : List Fields → List String
observed_of [] = []
observed_of (entry ∷ rest) =
    let names = observed_of rest in
    let device = get_or_null "device" entry in
    if is_nonempty_string device then add_device device names else names

pub is_stale : Build → Json → Fields → Bool
is_stale build artifact entry =
    py_eq artifact (str "variant")
    && not (is_null build.firmware_revision)
    && py_eq (get_or_null "status" entry) (str "passed")
    && is_text build.core_sha (get_or_null "coreRevision" entry)
    && not (py_eq (get_or_null "firmwareRevision" entry) build.firmware_revision)

pub stale_problem : List Fields → Problems
stale_problem [] = "required check %s has a record that did not pass for this build" ∷ []
stale_problem (entry ∷ rest) =
    "required check %s has a record from firmware revision %s, not this certificate's %s" ∷ []

-- The chain of tests on one well-formed check.
unfoldable pub judge : Build → Json → ℕ → ℕ → List Fields → List Fields → Problems
unfolding stale_problem is_stale
judge build artifact count units records accepted =
    if length records == 0
    then "required check %s has no record" ∷ []
    else if not (length accepted == length records)
    then stale_problem (select (is_stale build artifact) records)
    else if ltb (length accepted) count
    then "required check %s has %d of %d required records" ∷ []
    else problem_if (ltb (length (observed_of accepted)) units)
        "required check %s ran on %d of %d required units"

unfoldable pub check_problems : Tree → Build → List Json → Json → String → ℕ → ℕ → Outcome Problems
check_problems tree build entries artifact check count units = do
  let records = records_of check entries
  accepted ← accepted_of tree build artifact records
  ok (judge build artifact count units records accepted)

abbrev pub malformed : Problems
malformed = "malformed required check: %r" ∷ []

abbrev counted : Tree → Build → List Json → Json → String → Option ℕ → Option ℕ → Outcome Problems
counted tree build entries artifact check (some count) (some units) =
    check_problems tree build entries artifact check count units
counted tree build entries artifact check _ _ = ok malformed

abbrev known_artifact : Tree → Build → List Json → Json → String → Bool → Outcome Problems
known_artifact tree build entries required check true =
    counted tree build entries (field_of "artifact" required) check
      (count_of (field_of "records" required)) (count_of (field_of "units" required))
known_artifact tree build entries required check false = ok malformed

abbrev named_check : Tree → Build → List Json → Json → Json → Outcome Problems
named_check tree build entries required (str check) =
    if is_nonempty_string (str check)
    then (do
      known ← in_set (field_of "artifact" required) (str "release" ∷ str "variant" ∷ [])
      known_artifact tree build entries required check known)
    else ok malformed
named_check tree build entries required _ = ok malformed

-- The body of the loop over the required checks.
unfoldable pub one_required : Tree → Build → List Json → Json → Outcome Problems
one_required tree build entries required =
    named_check tree build entries required (field_of "check" required)

unfoldable pub each_required : Tree → Build → List Json → List Json → Outcome Problems
each_required tree build entries [] = ok []
each_required tree build entries (required ∷ rest) = do
  first ← one_required tree build entries required
  others ← each_required tree build entries rest
  ok (first ++ others)

unfoldable pub required_check_problems : Tree → Build → Json → List Json → Outcome Problems
required_check_problems tree build (arr (cons required rest)) entries =
    each_required tree build entries (required ∷ elements rest)
required_check_problems tree build _ entries =
    ok ("qualification.requiredChecks must name at least one check" ∷ [])
