-- ===== src/Audit/Samples.antt =====
-- The measurements of the linked storage on a few ranges and symbols.
use axoloty_embedded.Prelude.{ℕ, ◌≡◌, refl, true, List, [], ◌∷◌, arith, ◌↔◌, String}
use axoloty_embedded.Prelude.{false, All, some, sort_by}
use axoloty_embedded.Outcome.{ok}
use axoloty_embedded.Json.{
  Json, Fields, field, end, obj, int, get_or_null, is_positive_uint32, py_eq, get, has_key,
}
use axoloty_embedded.Json.Load.{load_unique, unique_object, put}
use axoloty_embedded.Prelude.Int.{pos}
use axoloty_embedded.Audit.Ranges.{Range, merged_bytes, covered, merged_bytes-covered}
use axoloty_embedded.Audit.Overlaps.{conflicting_overlaps}
use axoloty_embedded.Audit.Symbols.{Symbol}
use axoloty_embedded.Audit.Overlaps.Correct.{Apart, conflicting_overlaps-none}
use axoloty_embedded.Audit.Budget.{
  Comparison, enforce_static_storage_budget, IsSound, enforce_static_storage_budget-IsSound,
}
use axoloty_embedded.Audit.Coverage.{
  Section, MapOutput, has_duplicate_name, check_coverage, MapInput, check_sections, IsCovered,
  check_section, check_coverage-IsCovered, output_named, check_mapped, check_inputs, cover_from,
}

abbrev touching : List Range
touching = (4, 9) ∷ (0, 6) ∷ (9, 9) ∷ []

merged_bytes-covered_example : merged_bytes touching ≡ pos (covered 12 touching)
merged_bytes-covered_example =
    merged_bytes-covered 12 touching
      ((omega arith, omega arith), ((omega arith, omega arith), ((omega arith, omega arith), tt)))

abbrev symbol : String → ℕ → ℕ → Symbol
symbol name address size = record {
  name = name;
  address = address;
  size = size;
  section = ".bss";
  section_index = 3;
  is_object = true;
}

abbrev aliased : List Symbol
aliased = symbol "a" 16 8 ∷ symbol "b" 16 8 ∷ symbol "c" 24 4 ∷ []

aliased_run : conflicting_overlaps aliased ≡ []
unfolding conflicting_overlaps
aliased_run = refl

overlapping_run :
    conflicting_overlaps (symbol "c" 20 4 ∷ aliased)
    ≡ record { left = "a"; right = "c" } ∷ record { left = "b"; right = "c" } ∷ []
unfolding conflicting_overlaps
overlapping_run = refl

conflicting_overlaps-none_example : (conflicting_overlaps aliased ≡ []) ↔ Apart aliased
conflicting_overlaps-none_example =
    conflicting_overlaps-none aliased (omega arith, (omega arith, (omega arith, tt)))

abbrev row : ℕ → ℕ → MapInput
row address size = record {
  input_section = ".bss.a";
  address = address;
  size = size;
  owner = "App.o";
}

abbrev bss_output : MapOutput
bss_output = record {
  name = ".bss";
  address = 16;
  size = 12;
  inputs = row 20 8 ∷ row 16 6 ∷ row 28 0 ∷ [];
}

abbrev bss_section : Section
bss_section = record { name = ".bss"; address = 16; size = 12 }

coverage_run : check_coverage (bss_output ∷ []) (bss_section ∷ []) ≡ ok tt
unfolding check_coverage has_duplicate_name check_sections check_section output_named check_mapped
    check_inputs cover_from sort_by
coverage_run = refl

check_coverage-IsCovered_example :
    (has_duplicate_name (bss_output ∷ []) ≡ false)
    × All (IsCovered (bss_output ∷ [])) (bss_section ∷ [])
check_coverage-IsCovered_example =
    check_coverage-IsCovered (bss_output ∷ []) (bss_section ∷ []) coverage_run

abbrev measured : Fields
measured =
    field "combined_object" (obj (field "conservative_debit_bytes" (int (pos 24)) end))
      (field "aggregate_charged_static_bytes" (int (pos 24)) end)

abbrev policy : Json
policy =
    obj (field "capacities" (obj (field "applicationStaticStorageBytes" (int (pos 32)) end)) end)

abbrev within_budget : Comparison
within_budget = record {
  actual_bytes = 24;
  ceiling_bytes = 32;
  headroom_bytes = pos 8;
  passed = true;
}

budget_run : enforce_static_storage_budget measured (some policy) ≡ ok within_budget
unfolding enforce_static_storage_budget load_unique get_or_null is_positive_uint32 py_eq get
    unique_object has_key put
budget_run = refl

enforce_static_storage_budget-IsSound_example : IsSound measured within_budget
enforce_static_storage_budget-IsSound_example =
    enforce_static_storage_budget-IsSound measured (some policy) within_budget budget_run
