-- ===== src/Release/Transport.antt =====
-- `espidf_component_version` and `validate_transport_source` of Tools/validate-release-manifest.py.
use axoloty_embedded.Prelude.{
  ℕ, ◌≡◌, refl, Bool, false, not, ◌&&◌, ◌||◌, Option, none, some, List, [], ◌∷◌, ◌++◌,
  if◌then◌else◌, all, ◌==◌, ltb, length,
}
use axoloty_embedded.Prelude.Text.{
  codes, codes_eq, strip, strip_left, is_space, after_prefix, ends_with, splitlines,
}
use axoloty_embedded.Outcome.{Outcome, ok, raised, unicode_error, type_error}
use axoloty_embedded.Json.{Fields, Json, is_null, obj, py_eq, str, get_or_null, is_hashable}
use axoloty_embedded.Release.Tree.{Tree, Text, Problems, problem_if, is_nonempty_string, load}
use axoloty_embedded.Host.{Read, text, os_error, undecodable}
use axoloty_embedded.Release.Required.{is_text}

-- `re.match(r"^ {2}[^\s]", line)`
starts_entry : Text → Bool
starts_entry (a ∷ b ∷ c ∷ line) = a == b' ' && b == b' ' && not (is_space c)
starts_entry _ = false

-- `re.match(r"^ {2}[^\s].*:\s*$", line) and line.strip() == "%s:" % component`
names_component : Text → Text → Bool
unfolding starts_entry
names_component component line =
    starts_entry line
    && ends_with (codes ":") (strip line)
    && ltb 1 (length (strip line))
    && codes_eq (strip line) (component ++ codes ":")

abbrev is_quote : ℕ → Bool
is_quote c = c == 39

abbrev drop_quote : Text → Text
drop_quote [] = []
drop_quote (c ∷ line) = if is_quote c then line else c ∷ line

-- `([^'\s]+)`: the longest run, and what stands behind it.
word : Text → Text × Text
word [] = ([], [])
word (c ∷ line) =
    let (run, rest) = word line in
    if is_quote c || is_space c then ([], c ∷ line) else (c ∷ run, rest)

pinned : Text × Text → Option Text
pinned ([], rest) = none
pinned (c ∷ run, rest) = if all is_space (drop_quote rest) then some (c ∷ run) else none

-- `re.match(r"^ {4}version:\s*'?([^'\s]+)'?\s*$", line)`
version_of : Text → Option Text
unfolding pinned word
version_of line = elim (after_prefix (codes "    version:") line) [
  | none ↦ none
  | some rest ↦ pinned (word (drop_quote (strip_left rest)))
]

-- The lines of the entry, up to the next entry.
entry_version : List Text → Option Text
unfolding version_of starts_entry
entry_version [] = none
entry_version (line ∷ lines) =
    let rest = entry_version lines in
    if starts_entry line then none else elim (version_of line) [ some v ↦ some v | none ↦ rest ]

find_component : Text → List Text → Option Text
unfolding names_component entry_version
find_component component [] = none
find_component component (line ∷ lines) =
    let rest = find_component component lines in
    if names_component component line then entry_version lines else rest

unfoldable pub espidf_component_version : Text → Text → Option Text
unfolding find_component
espidf_component_version contents component = find_component component (splitlines contents)

component_run :
    espidf_component_version
      (codes "dependencies:\n  idf:\n    source:\n    version: '5.4.1'\n  other:\n    version: 2\n")
      (codes "idf")
    ≡ some (codes "5.4.1")
unfolding espidf_component_version after_prefix splitlines is_space ends_with strip codes_eq
component_run = refl

-- A source in JSON.
revision_problems : Fields → Fields → Problems
revision_problems transport source =
    if is_null (get_or_null "revision" source)
    then problem_if (not (is_null (get_or_null "revision" transport)))
        "transport.revision is %r but %s pins no revision"
    else problem_if (not (py_eq (get_or_null "revision" transport) (get_or_null "revision" source)))
        "transport.revision %r does not match %s revision %r"

unfoldable pub json_source_problems : Fields → Fields → Problems
unfolding revision_problems
json_source_problems transport source =
    problem_if
      (is_nonempty_string (get_or_null "component" source)
        && not (py_eq (get_or_null "backend" transport) (get_or_null "component" source)))
      "transport.backend %r does not match %s component %r"
    ++ problem_if (not (is_nonempty_string (get_or_null "version" source)))
        "%s does not declare a version"
    ++ problem_if
        (is_nonempty_string (get_or_null "version" source)
          && not (py_eq (get_or_null "version" transport) (get_or_null "version" source)))
        "transport.version %r does not match %s version %r"
    ++ revision_problems transport source

unfoldable pub loaded_source : Fields → Outcome Json → Problems
loaded_source transport (raised e) = "%s is not readable JSON: %s" ∷ []
loaded_source transport (ok (obj source)) = json_source_problems transport source
loaded_source transport (ok _) = "%s must be a JSON object" ∷ []

-- `ESPIDF_BACKENDS.get(transport.get("name"))`
backend_problems : Fields → Problems
backend_problems transport =
    if py_eq (get_or_null "name" transport) (str "mqtt-espidf")
    then problem_if (not (py_eq (get_or_null "backend" transport) (str "esp-idf/mqtt")))
        "transport.backend %r does not match the ESP-IDF backend %r for transport %r"
    else "transport.name %r has no ESP-IDF backend identity" ∷ []

version_problems : Fields → Option Text → Problems
version_problems transport none = "transport.component %r is not a component of %s" ∷ []
version_problems transport (some version) =
    problem_if (not (is_text version (get_or_null "version" transport)))
      "transport.version %r does not match %s component %r version %r"

abbrev component_of : Json → Text
component_of (str s) = codes s
component_of _ = []

pub espidf_problems : Fields → Read → Outcome Problems
espidf_problems transport os_error = ok ("%s is not readable: %s" ∷ [])
espidf_problems transport undecodable = raised unicode_error
espidf_problems transport (text contents) = ok (
    backend_problems transport
    ++ version_problems transport (
        espidf_component_version (codes contents)
          (component_of (get_or_null "component" transport)))
    ++ problem_if (not (is_null (get_or_null "revision" transport)))
        "transport.revision must be null for an ESP-IDF dependency manifest")

-- Looking the name up hashes it.
espidf_source : Tree → Fields → Text → Outcome Problems
espidf_source tree transport source_path =
    if not (is_nonempty_string (get_or_null "component" transport))
    then ok (
        "transport.component is required when the backend version comes from an ESP-IDF dependency manifest"
        ∷ [])
    else if is_hashable (get_or_null "name" transport)
    then espidf_problems transport (tree.read_text source_path)
    else raised type_error

unfoldable pub validate_transport_source : Tree → Fields → Text → Outcome Problems
unfolding espidf_source
validate_transport_source tree transport source_path =
    if ends_with (codes ".json") source_path
    then ok (loaded_source transport (load tree source_path))
    else espidf_source tree transport source_path
