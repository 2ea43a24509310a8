-- ===== src/Audit/Overlaps.antt =====
-- `conflicting_overlaps` of Tools/EmbeddedApplicationMacros/linked_storage_audit.py: the pairs of
-- symbols of one section whose ranges overlap and are not aliases of one another.
mod Order
mod Sweep
mod Groups
pub mod Correct
use axoloty_embedded.Prelude.Text.{codes}
use axoloty_embedded.Prelude.{
  ℕ, ◌+◌, ◌≡◌, Bool, true, false, not, ◌&&◌, ◌||◌, String, List, [], ◌∷◌, ◌++◌, map, arith, ltb,
  leb, ◌==◌, if◌then◌else◌, select, sort_by,
}
use axoloty_embedded.Audit.Symbols.{Symbol, stop_of, same_range}

-- The order of Python's texts, by code points.
codes_le : List ℕ → List ℕ → Bool
codes_le [] ys = true
codes_le (x ∷ xs) [] = false
codes_le (x ∷ xs) (y ∷ ys) = ltb x y || (x == y && codes_le xs ys)

-- `key=lambda s: (s["address"], s["address"] + s["size"], s["name"])`
pub symbol_le : Symbol → Symbol → Bool
unfolding codes_le
symbol_le s t =
    ltb s.address t.address
    || (s.address == t.address
        && (ltb (stop_of s) (stop_of t)
            || (stop_of s == stop_of t && codes_le (codes s.name) (codes t.name))))

pub record Conflict : Type 0 where
  pub left : String
  pub right : String

-- `[item for item in active if item["address"] + item["size"] > symbol["address"]]`
still_active : Symbol → List Symbol → List Symbol
still_active symbol active = select (λ item. ltb symbol.address (stop_of item)) active

conflicts_with : Symbol → List Symbol → List Conflict
conflicts_with symbol active =
    map (λ prior. record { left = prior.name; right = symbol.name })
      (select (λ prior. not (same_range prior symbol)) active)

-- The inner loops over one sorted section.
pub sweep : List Symbol → List Symbol → List Conflict
unfolding still_active conflicts_with
sweep active [] = []
sweep active (symbol ∷ rest) =
    conflicts_with symbol (still_active symbol active)
    ++ sweep (still_active symbol active ++ symbol ∷ []) rest

abbrev pub Groups : Type 0
Groups = List (ℕ × List Symbol)

-- `by_section.setdefault(symbol["section_index"], []).append(symbol)`
pub append_to_group : Symbol → Groups → Groups
append_to_group symbol [] = (symbol.section_index, symbol ∷ []) ∷ []
append_to_group symbol ((index, group) ∷ groups) =
    if index == symbol.section_index
    then (index, group ++ symbol ∷ []) ∷ groups
    else (index, group) ∷ append_to_group symbol groups

pub by_section : Groups → List Symbol → Groups
unfolding append_to_group
by_section groups [] = groups
by_section groups (symbol ∷ rest) = by_section (append_to_group symbol groups) rest

pub sweep_groups : Groups → List Conflict
unfolding sweep symbol_le sort_by
sweep_groups [] = []
sweep_groups ((index, group) ∷ groups) = sweep [] (sort_by symbol_le group) ++ sweep_groups groups

unfoldable pub conflicting_overlaps : List Symbol → List Conflict
unfolding sweep_groups by_section
conflicting_overlaps symbols = sweep_groups (by_section [] symbols)
