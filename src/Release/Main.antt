-- ===== src/Release/Main.antt =====
-- `main` of Tools/validate-release-manifest.py: the exit status for the arguments behind the program's
-- name. The paths of the arguments are absolute already.
use axoloty_embedded.Prelude.{
  ℕ, Bool, not, ◌||◌, String, str_eq, Option, none, some, List, [], ◌∷◌, any, if◌then◌else◌, select,
}
use axoloty_embedded.Prelude.Text.{codes}
use axoloty_embedded.Outcome.{
  Outcome, ok, raised, value_error, unicode_error, ◌>>=◌, ◌>>◌, attribute_error, key_error,
}
use axoloty_embedded.Release.Tree.{Tree, Text, Problems, load}
use axoloty_embedded.Json.{Json, Fields, obj, has_key}
use axoloty_embedded.Release.Manifest.{validate}
use axoloty_embedded.Release.Paths.{load_revocation}

abbrev is_option : String → Bool
is_option argument = str_eq argument "--require-qualified" || str_eq argument "--allow-revoked"

abbrev given : String → List String → Bool
given option arguments = any (λ argument. str_eq argument option) arguments

-- `load(manifest_path).get("mode")`, and the reason of a revocation, are read for the message.
mode_read : Json → Outcome ℕ
mode_read (obj manifest) = ok 0
mode_read _ = raised attribute_error

reason_read : Option Fields → Outcome (Unit {0})
reason_read none = ok tt
reason_read (some revocation) = if has_key "reason" revocation then ok tt else raised key_error

finished : Tree → Text → Text → Problems → Outcome ℕ
unfolding mode_read reason_read
finished tree repo_root manifest_path [] = do
  document ← load tree manifest_path
  status ← mode_read document
  reason_read (load_revocation tree repo_root manifest_path).0
  ok status
finished tree repo_root manifest_path (problem ∷ problems) = ok 1

-- `except ValueError` stands around `validate` alone.
validated : Tree → Text → Text → Outcome Problems → Outcome ℕ
unfolding finished
validated tree repo_root manifest_path (ok problems) =
    finished tree repo_root manifest_path problems
validated tree repo_root manifest_path (raised value_error) = ok 1
validated tree repo_root manifest_path (raised unicode_error) = ok 1
validated tree repo_root manifest_path (raised e) = raised e

unfoldable pub release_main : Tree → List String → Outcome ℕ
unfolding validated
release_main tree arguments = elim (select (λ argument. not (is_option argument)) arguments) [
  | repo_root ∷ rest ↦ elim rest [
    | manifest ∷ more ↦ elim more [
      | [] ↦ validated tree (codes repo_root) (codes manifest) (
          validate tree (codes repo_root) (codes manifest) (given "--require-qualified" arguments)
            (given "--allow-revoked" arguments))
      | extra ∷ others ↦ ok 2
    ]
    | [] ↦ ok 2
  ]
  | [] ↦ ok 2
]
