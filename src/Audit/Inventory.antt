-- ===== src/Audit/Inventory.antt =====
-- `object_member` and `join_inventory` of Tools/EmbeddedApplicationMacros/linked_storage_audit.py:
-- the symbols that an inventory lists, joined to the ELF symbols and the linker map.
use axoloty_embedded.Prelude.{
  ℕ, ◌+◌, ◌≡◌, refl, Bool, true, false, not, ◌&&◌, ◌||◌, String, str_eq, Option, none, some, List,
  [], ◌∷◌, ◌++◌, if◌then◌else◌, any, all, leb, ltb, ◌==◌, length, select,
}
use axoloty_embedded.Prelude.Int.{pos}
use axoloty_embedded.Prelude.Text.{codes, codes_eq, split_on, split_once, ends_with, is_space}
use axoloty_embedded.Outcome.{Outcome, ok, raised, rejected, ◌>>=◌, ◌>>◌, reject_if}
use axoloty_embedded.Audit.Symbols.{Symbol, stop_of, same_range}
use axoloty_embedded.Json.{
  Json, str, py_eq, arr, obj, cons, get_or_null, elements, int, nonempty_string, as_array, null,
}
use axoloty_embedded.Audit.Coverage.{
  AccountingClass, writable_section_class, MapOutput, MapInput, bss, data_bytes,
}
use axoloty_embedded.Release.Tree.{field_of, in_set}

abbrev Text : Type 0
Text = List ℕ

-- `[^()/\s]+`
is_name : Text → Bool
is_name part =
    not (codes_eq part []) && all (λ c. not (c == 40 || c == 41 || c == b'/' || is_space c)) part

-- `[^()/\s]+\.(?:o|obj)`
is_object_name : Text → Bool
unfolding is_name
is_object_name part =
    is_name part
    && ((ends_with (codes ".o") part && ltb 2 (length part))
        || (ends_with (codes ".obj") part && ltb 4 (length part)))

abbrev without_last : Text → Text
without_last [] = []
without_last (c ∷ []) = []
without_last (c ∷ text) = c ∷ without_last text

-- The member of `archive.a(member)`.
archive_member : Text → Option Text
unfolding is_name is_object_name
archive_member part =
    let (archive, inside) = split_once 40 part in
    elim inside [
      | none ↦ none
      | some rest ↦
          if is_name archive
            && ends_with (codes ".a") archive
            && ltb 2 (length archive)
            && ends_with (codes ")") rest
            && is_object_name (without_last rest)
          then some (without_last rest)
          else none
    ]

last_member : Text → Option Text
unfolding archive_member is_object_name
last_member part = elim (archive_member part) [
  | some member ↦ some member
  | none ↦ if is_object_name part then some part else none
]

member_of_parts : List Text → Option Text
unfolding last_member is_name
member_of_parts [] = none
member_of_parts (part ∷ []) = last_member part
member_of_parts (part ∷ parts) =
    let rest = member_of_parts parts in if is_name part then rest else none

unfoldable pub object_member : Text → Option Text
unfolding member_of_parts
object_member identity = member_of_parts (split_on b'/' identity)

member_run :
    (object_member (codes "esp-idf/main/libmain.a(App.o)") ≡ some (codes "App.o"))
    × (object_member (codes "build/App.obj") ≡ some (codes "App.obj"))
    × (object_member (codes "libmain.a") ≡ none)
    × (object_member (codes "a//b.o") ≡ none)
unfolding object_member split_on split_once ends_with is_space codes_eq
member_run = (refl, refl, refl, refl)

-- What the join reads. `source_holds path name` is none where the source is unavailable or escapes
-- its root: the file system is a parameter.
pub record Image : Type 0 where
  pub symbols : List Symbol
  pub outputs : List MapOutput
  pub section_types : String → Option ℕ
  pub source_holds : String → String → Option Bool
  pub expected_owner : String
  pub expected_member : String
  pub wire_profile : Option String

pub record Joined : Type 0 where
  pub owner : String
  pub raw_name : String
  pub symbol : Symbol
  pub charged : ℕ

-- A symbol that was not joined, with the reason.
pub record Failure : Type 0 where
  pub owner : String
  pub raw_name : String
  pub reason : String

-- The variables of the loop.
pub record Join : Type 0 where
  pub owners : List String
  pub expected_names : List String
  pub joined : List Joined
  pub unmatched : List Failure
  pub ambiguous : List Failure
  pub not_applicable : List String

abbrev listed : String → List String → Bool
listed name names = any (str_eq name) names

abbrev failure : String → String → String → Failure
failure owner raw_name reason = record { owner = owner; raw_name = raw_name; reason = reason }

-- The sized inputs of the symbol's section that hold its whole range.
abbrev holds_symbol : Symbol → MapInput → Bool
holds_symbol s item =
    ltb 0 item.size && leb item.address s.address && leb (stop_of s) (item.address + item.size)

unfoldable pub map_matches : Symbol → List MapOutput → List MapInput
map_matches s [] = []
map_matches s (output ∷ outputs) =
    (if str_eq output.name s.section then select (holds_symbol s) output.inputs else [])
    ++ map_matches s outputs

-- `range_key in charged_ranges`
abbrev same_key : Symbol → Joined → Bool
same_key s j = str_eq j.symbol.section s.section && same_range j.symbol s

abbrev charge_of : Symbol → List Joined → ℕ
charge_of s joined = if any (same_key s) joined then 0 else s.size

unfoldable pub join_matched : Image → String → Symbol → MapInput → Join → Outcome Join
join_matched image owner s item state = elim (object_member (codes item.owner)) [
  | none ↦
      raised
        (rejected "containing map input has unsupported archive-member or plain-object syntax: %r")
  | some member ↦
      if str_eq item.owner image.expected_owner && codes_eq member (codes image.expected_member)
      then ok (record state {
        joined =
            state.joined
            ++ record {
              owner = owner;
              raw_name = s.name;
              symbol = s;
              charged = charge_of s state.joined;
            }
              ∷ [];
      })
      else ok (record state {
        unmatched = state.unmatched ++ failure owner s.name "map-owner-contract-mismatch" ∷ [];
      })
]

unfoldable pub join_ranges : Image → String → Symbol → List MapInput → Join → Outcome Join
join_ranges image owner s (item ∷ []) state = join_matched image owner s item state
join_ranges image owner s _ state = ok (record state {
  ambiguous = state.ambiguous ++ failure owner s.name "map-input-range-not-unique" ∷ [];
})

abbrev is_storage : AccountingClass → Bool
is_storage bss = true
is_storage data_bytes = true
is_storage _ = false

abbrev is_known_type : Option ℕ → Bool
is_known_type none = false
is_known_type (some n) = n == 8 || n == 1

unfoldable pub join_symbol : Image → String → Symbol → Join → Outcome Join
join_symbol image owner s state = do
  accounting ← writable_section_class s.section
  reject_if (not (is_storage accounting)) "inventory symbol is outside .data/.bss: %s (%s)"
  reject_if (not (is_known_type (image.section_types s.section)))
      "inventory symbol has unsupported or unknown ELF section type: %s"
  join_ranges image owner s (map_matches s image.outputs) state

unfoldable pub join_matches : Image → String → String → List Symbol → Join → Outcome Join
join_matches image owner raw_name [] state = ok (record state {
  unmatched = state.unmatched ++ failure owner raw_name "expected-symbol-missing" ∷ [];
})
join_matches image owner raw_name (s ∷ []) state = join_symbol image owner s state
join_matches image owner raw_name _ state = ok (record state {
  ambiguous = state.ambiguous ++ failure owner raw_name "multiple-exact-symbol-identities" ∷ [];
})

unfoldable pub join_name : Image → String → Json → Json → Join → Outcome Join
join_name image owner (str raw_name) (str role) state =
    if listed raw_name state.expected_names
    then raised (rejected "ELF symbol assigned to multiple inventory entries: %s")
    else join_matches image owner raw_name (select (λ s. str_eq s.name raw_name) image.symbols)
        (record state { expected_names = raw_name ∷ state.expected_names })
join_name image owner _ _ state =
    raised (rejected "inventory entry %s has malformed symbol identity")

-- The loop over the expected symbols of one entry.
unfoldable pub join_expected : Image → String → List Json → Join → Outcome Join
join_expected image owner [] state = ok state
join_expected image owner (identity ∷ rest) state = do
  next ← join_name image owner (field_of "rawName" identity) (field_of "role" identity) state
  join_expected image owner rest next

-- `isinstance(owner, str) and owner and owner not in owners`
new_owner : Json → Join → Outcome String
new_owner (str owner) state =
    if str_eq owner "" || listed owner state.owners
    then raised (rejected "inventory has missing or duplicate logical owner: %r")
    else ok owner
new_owner _ state = raised (rejected "inventory has missing or duplicate logical owner: %r")

source_found : Option Bool → Outcome (Unit {0})
source_found none = raised (rejected "inventory source path unavailable for %s: %s")
source_found (some holds) = reject_if (not holds) "source identity %r not found in %s"

abbrev same_test : Bool → Bool → Bool
same_test true b = b
same_test false b = not b

-- The source that an entry names.
check_source : Image → Json → Json → Json → Outcome (Unit {0})
unfolding source_found
check_source image (str path) (str name) kind = do
  known ← in_set kind (str "swift-source" ∷ str "generator-source" ∷ [])
  reject_if (not known) "inventory entry %s lacks source identity"
  reject_if
      (not (same_test (ends_with (codes ".swift") (codes path)) (py_eq kind (str "swift-source"))))
      "inventory sourceKind does not match source path kind for %s: %s"
  source_found (image.source_holds path name)
check_source image _ _ kind = raised (rejected "inventory entry %s lacks source identity")

-- `wireProfiles`: whether the entry applies to this build.
abbrev profile_listed : Option String → List Json → Bool
profile_listed none profiles = true
profile_listed (some profile) profiles = any (λ v. py_eq v (str profile)) profiles

applies : Image → Json → Outcome Bool
applies image null = ok true
applies image (arr (cons item items)) =
    let profiles = item ∷ elements items in
    if all nonempty_string profiles
    then ok (profile_listed image.wire_profile profiles)
    else raised (rejected "inventory entry %s has malformed wireProfiles")
applies image _ = raised (rejected "inventory entry %s has malformed wireProfiles")

expected_of : Json → Outcome (List Json)
expected_of (arr (cons item items)) = ok (item ∷ elements items)
expected_of _ = raised (rejected "inventory entry %s has no expected ELF symbols")

join_applicable : Image → String → List Json → Join → Bool → Outcome Join
join_applicable image owner expected state true = join_expected image owner expected state
join_applicable image owner expected state false =
    ok (record state { not_applicable = owner ∷ state.not_applicable })

-- The body of the loop over the entries.
unfoldable pub join_entry : Image → Json → Join → Outcome Join
unfolding new_owner check_source applies expected_of join_applicable
join_entry image (obj entry) state = do
  owner ← new_owner (get_or_null "owner" entry) state
  known ←
      in_set (get_or_null "category" entry)
        (str "app-state" ∷ str "app-global" ∷ str "initialization-control" ∷ [])
  reject_if (not known) "inventory entry %s has unsupported category"
  check_source image (get_or_null "sourcePath" entry) (get_or_null "sourceName" entry)
      (get_or_null "sourceKind" entry)
  expected ← expected_of (get_or_null "expectedSymbols" entry)
  here ← applies image (get_or_null "wireProfiles" entry)
  join_applicable image owner expected (record state { owners = owner ∷ state.owners }) here
join_entry image _ state = raised (rejected "inventory entries must be objects")

unfoldable pub join_entries : Image → List Json → Join → Outcome Join
join_entries image [] state = ok state
join_entries image (entry ∷ entries) state = do
  next ← join_entry image entry state
  join_entries image entries next

abbrev pub empty_join : Join
empty_join = record {
  owners = [];
  expected_names = [];
  joined = [];
  unmatched = [];
  ambiguous = [];
  not_applicable = [];
}

abbrev no_failures : List Failure → Bool
no_failures [] = true
no_failures (f ∷ fs) = false

-- `inventory` behind the tests of its own fields.
unfoldable pub join_all : Image → List Json → Outcome Join
join_all image entries = do
  state ← join_entries image entries empty_join
  reject_if (not (no_failures state.unmatched && no_failures state.ambiguous))
      "inventory join failed: %s"
  ok state

abbrev same_member : Option Text → String → Bool
same_member none member = false
same_member (some found) member = codes_eq found (codes member)

abbrev has_member : Option Text → Bool
has_member none = false
has_member (some found) = true

unfoldable pub join_inventory : Image → Json → Outcome Join
join_inventory image (obj inventory) = elim (as_array (get_or_null "entries" inventory)) [
  | none ↦ raised (rejected "inventory must use schemaVersion 1 and contain entries")
  | some entries ↦ from_entries entries (get_or_null "expectedMapMember" inventory)
]
  where
    from_entries : List Json → Json → Outcome Join
    from_entries entries (str member) = do
      reject_if (not (py_eq (get_or_null "schemaVersion" inventory) (int (pos 1))))
          "inventory must use schemaVersion 1 and contain entries"
      reject_if (not (same_member (object_member (codes member)) member))
          "inventory must declare expectedMapMember as an exact .o or .obj basename"
      reject_if (not (has_member (object_member (codes image.expected_owner))))
          "--combined-object must use archive-member or plain-object linker identity syntax"
      reject_if (not (same_member (object_member (codes image.expected_owner)) member))
          "inventory expectedMapMember does not match --combined-object member: %r != %r"
      join_all (record image { expected_member = member }) entries
    from_entries entries _ = do
      reject_if (not (py_eq (get_or_null "schemaVersion" inventory) (int (pos 1))))
          "inventory must use schemaVersion 1 and contain entries"
      raised (rejected "inventory must declare expectedMapMember as an exact .o or .obj basename")
join_inventory image _ = raised (rejected "inventory root must be an object")
