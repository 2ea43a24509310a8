-- ===== src/Release/Paths.antt =====
-- The path operations of Tools/validate-release-manifest.py, on absolute POSIX paths, and
-- `load_revocation`.
use axoloty_embedded.Prelude.{
  ◌≡◌, refl, Bool, true, false, not, ◌||◌, Option, none, some, List, [], ◌∷◌, ◌++◌, if◌then◌else◌,
}
use mathlib.Core.List.{reverse}
use axoloty_embedded.Prelude.Text.{codes, codes_eq, starts_with}
use axoloty_embedded.Outcome.{Outcome, ok, raised}
use axoloty_embedded.Prelude.Text.{ends_with}
use axoloty_embedded.Host.{path_parts}
use axoloty_embedded.Json.{Fields, Json, py_eq, obj, get_or_null, int, str}
use axoloty_embedded.Release.Tree.{Tree, Text, Problems, join, problem_if, load, is_nonempty_string}
use axoloty_embedded.Prelude.Int.{pos}
use axoloty_embedded.Release.Required.{is_text}

abbrev pop : List Text → List Text
pop [] = []
pop (part ∷ parts) = parts

-- `..` takes the part before it away; at the root it does nothing. `stack` has the last part first.
climb : List Text → List Text → List Text
climb stack [] = reverse stack
climb stack (part ∷ parts) =
    climb (if codes_eq part (codes "..") then pop stack else part ∷ stack) parts

-- The parts of `os.path.abspath(os.path.join(root, path))`.
unfoldable pub absolute_parts : Text → Text → List Text
unfolding climb
absolute_parts root path = climb [] (path_parts (join root path))

unfoldable pub slashed : List Text → Text
slashed [] = []
slashed (part ∷ parts) = (b'/' ∷ part) ++ slashed parts

-- `os.path.relpath` of a path below a directory.
unfoldable pub parts_behind : List Text → List Text → Option (List Text)
parts_behind [] parts = some parts
parts_behind (d ∷ directory) [] = none
parts_behind (d ∷ directory) (part ∷ parts) =
    let rest = parts_behind directory parts in if codes_eq d part then rest else none

abbrev pub is_some_part : Option (List Text) → Bool
is_some_part none = false
is_some_part (some []) = false
is_some_part (some (part ∷ parts)) = true

-- `is_within`: below the directory, and not the directory itself.
unfoldable pub is_within : List Text → List Text → Bool
is_within candidate directory = is_some_part (parts_behind directory candidate)

unfoldable pub joined : List Text → Text
joined [] = []
joined (part ∷ []) = part
joined (part ∷ parts) = part ++ (b'/' ∷ joined parts)

-- `relative_manifest.startswith("revocations" + os.sep)`
abbrev is_revocation : List Text → Bool
is_revocation parts = starts_with (codes "revocations/") (joined parts)

pub revocation_problems : Text → Fields → Problems
revocation_problems expected record_fields =
    problem_if (not (py_eq (get_or_null "schemaVersion" record_fields) (int (pos 1))))
      "revocation %s: schemaVersion must be 1"
    ++ problem_if (not (py_eq (get_or_null "status" record_fields) (str "revoked")))
        "revocation %s: status must be revoked"
    ++ problem_if (not (is_text expected (get_or_null "manifestPath" record_fields)))
        "revocation %s: manifestPath must be %r"
    ++ problem_if (not (is_nonempty_string (get_or_null "reason" record_fields)))
        "revocation %s: reason is required"

-- A record or none, with the problems of it.
abbrev pub Revocation : Type 0
Revocation = Option Fields × Problems

-- `except ValueError`; `load` raises nothing else.
unfoldable pub loaded_revocation : Text → Outcome Json → Revocation
unfolding revocation_problems
loaded_revocation expected (raised e) = (none, "revocation %s is invalid: %s" ∷ [])
loaded_revocation expected (ok (obj fs)) = (some fs, revocation_problems expected fs)
loaded_revocation expected (ok _) = (none, "revocation %s must be a JSON object" ∷ [])

abbrev text_behind : Option (List Text) → Text
text_behind none = []
text_behind (some parts) = joined parts

unfoldable pub revocation_at : Tree → Text → Text → List Text → Revocation
revocation_at tree repo_root manifest_path relative =
    let path =
      join (join (join repo_root (codes "releases")) (codes "revocations")) (joined relative) in
    if is_revocation relative || not (tree.is_file path)
    then (none, [])
    else loaded_revocation
        (text_behind (parts_behind (path_parts repo_root) (path_parts manifest_path)))
        (load tree path)

unfoldable pub load_revocation : Tree → Text → Text → Revocation
load_revocation tree repo_root manifest_path =
    elim (parts_behind (path_parts (join repo_root (codes "releases")))
      (path_parts manifest_path)) [ none ↦ (none, []) | some relative ↦ below relative ]
  where
    below : List Text → Revocation
    below [] = (none, [])
    below (part ∷ parts) = revocation_at tree repo_root manifest_path (part ∷ parts)

paths_run :
    (absolute_parts (codes "/r") (codes "docs/evidence/../x.json")
      ≡ codes "r" ∷ codes "docs" ∷ codes "x.json" ∷ [])
    × (is_within (absolute_parts (codes "/r") (codes "docs/a")) (codes "r" ∷ codes "docs" ∷ [])
        ≡ true)
    × (is_within (absolute_parts (codes "/r") (codes "docs/..")) (codes "r" ∷ []) ≡ false)
unfolding absolute_parts is_within path_parts join ends_with parts_behind
paths_run = (refl, refl, refl)
