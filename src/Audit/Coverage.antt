-- ===== src/Audit/Coverage.antt =====
-- The part of `measure` in Tools/EmbeddedApplicationMacros/linked_storage_audit.py that compares the
-- linker map with the writable sections, and `writable_section_class`.
use axoloty_embedded.Prelude.{
  ℕ, ◌+◌, ◌≡◌, ◌≤◌, ◌<◌, refl, Bool, true, false, not, ◌&&◌, ◌||◌, String, str_eq, Option, none,
  some, List, [], ◌∷◌, if◌then◌else◌, any, all, ltb, leb, ◌==◌, arith, sort_by, any-sort_by, select,
  map, Bool-cases, inl, inr, ◌∙◌, sym,
}
use axoloty_embedded.Prelude.Text.{codes, contains_text, lower}
use axoloty_embedded.Prelude.{All}
use axoloty_embedded.Outcome.{
  Outcome, ok, raised, rejected, ◌>>◌, reject_if, reject_if-eq-ok, >>=-eq-ok,
}
use axoloty_embedded.Audit.Ranges.{Range, range_le, contains}

-- A row of the map below an output section, and an output section.
pub record MapInput : Type 0 where
  pub input_section : String
  pub address : ℕ
  pub size : ℕ
  pub owner : String

pub record MapOutput : Type 0 where
  pub name : String
  pub address : ℕ
  pub size : ℕ
  pub inputs : List MapInput

-- A writable section of the ELF image.
pub record Section : Type 0 where
  pub name : String
  pub address : ℕ
  pub size : ℕ

pub data AccountingClass : Type 0 where
  bss data_bytes boundary read_only : AccountingClass

abbrev boundary_names : List String
boundary_names =
    ".noinit" ∷ ".rtc_reserved" ∷ ".iram0.text_end" ∷ ".flash_rodata_dummy" ∷ ".dram0.heap_start"
    ∷ []

unfoldable pub writable_section_class : String → Outcome AccountingClass
writable_section_class name =
    let lowered = lower (codes name) in
    if contains_text (codes "bss") lowered
    then ok bss
    else if contains_text (codes "data") lowered && not (contains_text (codes "rodata") lowered)
    then ok data_bytes
    else if any (str_eq name) boundary_names
    then ok boundary
    else if contains_text (codes "rodata") lowered
    then ok read_only
    else raised (rejected "unsupported allocated writable ELF section category: %s")

-- `map_outputs`: a name that occurs twice is refused.
unfoldable pub has_duplicate_name : List MapOutput → Bool
has_duplicate_name [] = false
has_duplicate_name (output ∷ outputs) =
    any (λ other. str_eq other.name output.name) outputs || has_duplicate_name outputs

unfoldable pub output_named : String → List MapOutput → Option MapOutput
output_named name [] = none
output_named name (output ∷ outputs) =
    let rest = output_named name outputs in if str_eq output.name name then some output else rest

abbrev pub range_of : MapInput → Range
range_of item = (item.address, item.address + item.size)

abbrev pub sized_ranges : List MapInput → List Range
sized_ranges inputs = map range_of (select (λ item. ltb 0 item.size) inputs)

abbrev is_inside : MapOutput → MapInput → Bool
is_inside mapped item =
    leb mapped.address item.address && leb (item.address + item.size) (mapped.address + mapped.size)

-- The loop over the sorted ranges, and the test behind it.
unfoldable pub cover_from : ℕ → ℕ → List Range → Outcome (Unit {0})
cover_from end cursor [] =
    reject_if (not (cursor == end)) "incomplete map input coverage in %s at 0x%x"
cover_from end cursor ((start, stop) ∷ ranges) = do
  reject_if (ltb cursor start) "incomplete map input coverage in %s at 0x%x"
  cover_from end (if ltb cursor stop then stop else cursor) ranges

unfoldable pub check_inputs : MapOutput → Outcome (Unit {0})
check_inputs mapped = do
  reject_if (not (all (is_inside mapped) mapped.inputs)) "map input range outside output section %s"
  cover_from (mapped.address + mapped.size) mapped.address
      (sort_by range_le (sized_ranges mapped.inputs))

abbrev matches_section : Section → MapOutput → Bool
matches_section section mapped = mapped.address == section.address && mapped.size == section.size

unfoldable pub check_mapped : Section → MapOutput → Outcome (Unit {0})
check_mapped section mapped = do
  reject_if (not (matches_section section mapped))
      "linker map does not completely cover writable ELF section %s"
  check_inputs mapped

abbrev pub check_found : Section → Option MapOutput → Outcome (Unit {0})
check_found section none =
    raised (rejected "linker map does not completely cover writable ELF section %s")
check_found section (some mapped) = check_mapped section mapped

unfoldable pub check_section : List MapOutput → Section → Outcome (Unit {0})
check_section outputs section = check_found section (output_named section.name outputs)

unfoldable pub check_sections : List MapOutput → List Section → Outcome (Unit {0})
check_sections outputs [] = ok tt
check_sections outputs (section ∷ sections) = do
  check_section outputs section
  check_sections outputs sections

-- The checks of the map against the sections that hold bytes.
unfoldable pub check_coverage : List MapOutput → List Section → Outcome (Unit {0})
check_coverage outputs sections = do
  reject_if (has_duplicate_name outputs) "ambiguous duplicate linker map output section %s"
  check_sections outputs (select (λ section. ltb 0 section.size) sections)

cover_from-contains :
    (end cursor : ℕ) (ranges : List Range)
    → cover_from end cursor ranges ≡ ok tt
    → (n : ℕ) → cursor ≤ n
    → n < end
    → any (contains n) ranges ≡ true
unfolding cover_from
cover_from-contains end cursor [] h n a b = ground arith
cover_from-contains end cursor ((start, stop) ∷ ranges) h n a b =
    let (near, k) = reject_if-eq-ok (ltb cursor start) _ _ h in
    elim (Bool-cases (ltb n stop)) [
      | inl e ↦ ground arith
      | inr e ↦
          let later =
            cover_from-contains end (if ltb cursor stop then stop else cursor) ranges k n
              (ground arith) b in
          ground arith
    ]

-- Every address of the section lies in a sized input of the output section of its name.
pub record IsCovered (outputs : List MapOutput) (section : Section) : Type 0 where
  pub mapped : MapOutput
  pub found : output_named section.name outputs ≡ some mapped
  pub covers :
      (n : ℕ)
      → section.address ≤ n
      → n < section.address + section.size
      → any (contains n) (sized_ranges mapped.inputs) ≡ true

check_inputs-contains :
    (mapped : MapOutput)
    → check_inputs mapped ≡ ok tt
    → (n : ℕ) → mapped.address ≤ n
    → n < mapped.address + mapped.size
    → any (contains n) (sized_ranges mapped.inputs) ≡ true
unfolding check_inputs
check_inputs-contains mapped h n a b =
    let (inside, k) = reject_if-eq-ok _ _ _ h in
    sym (any-sort_by range_le (contains n) (sized_ranges mapped.inputs))
    ∙ cover_from-contains (mapped.address + mapped.size) mapped.address
        (sort_by range_le (sized_ranges mapped.inputs)) k n a b

check_found-IsCovered :
    (outputs : List MapOutput) (section : Section) (o : Option MapOutput)
    → output_named section.name outputs ≡ o
    → check_found section o ≡ ok tt
    → IsCovered outputs section
unfolding check_mapped
check_found-IsCovered outputs section none e h = absurd (cc)
check_found-IsCovered outputs section (some mapped) e h =
    let (same, k) =
      reject_if-eq-ok (not (matches_section section mapped))
        "linker map does not completely cover writable ELF section %s" (check_inputs mapped) h in
    record {
      mapped = mapped;
      found = e;
      covers = λ n a b. check_inputs-contains mapped k n (ground arith) (ground arith);
    }

check_section-IsCovered :
    (outputs : List MapOutput) (section : Section)
    → check_section outputs section ≡ ok tt
    → IsCovered outputs section
unfolding check_section
check_section-IsCovered outputs section h =
    check_found-IsCovered outputs section (output_named section.name outputs) refl h

check_sections-IsCovered :
    (outputs : List MapOutput) (sections : List Section)
    → check_sections outputs sections ≡ ok tt
    → All (IsCovered outputs) sections
unfolding check_sections
check_sections-IsCovered outputs [] h = tt
check_sections-IsCovered outputs (section ∷ sections) h =
    let (first, p, k) = >>=-eq-ok (check_section outputs section) _ h in
    (check_section-IsCovered outputs section p, check_sections-IsCovered outputs sections k)

-- If the coverage check passes, then no two output sections of the map have one name, and every
-- address of every writable section that holds bytes lies in an input of positive size of the
-- output section of its name.
pub check_coverage-IsCovered :
    (outputs : List MapOutput) (sections : List Section)
    → check_coverage outputs sections ≡ ok tt
    → (has_duplicate_name outputs ≡ false)
      × All (IsCovered outputs) (select (λ section. ltb 0 section.size) sections)
unfolding check_coverage
check_coverage-IsCovered outputs sections h =
    let (unique, k) = reject_if-eq-ok (has_duplicate_name outputs) _ _ h in
    (unique, check_sections-IsCovered outputs (select (λ section. ltb 0 section.size) sections) k)
