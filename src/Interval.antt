-- ===== src/Interval.antt =====
-- Tools/EmbeddedApplicationMacros/initialization_interval.py: the sets of values that a register may
-- hold, and the join of two abstract states.
pub mod Sound
pub mod Registers
pub mod Branch
pub mod Integers
pub mod Alu
pub mod Offset
pub mod Access
pub mod Transfer
pub mod Worklist
pub mod Program
pub mod Engine
pub mod Jump
pub mod Call
pub mod Visit
pub mod Acyclic
pub mod Analyze
mod Samples
mod Trial
mod Steps
use axoloty_embedded.Prelude.{
  ℕ, ◌+◌, ◌-◌, ◌%◌, ◌^◌, ◌≡◌, refl, Bool, true, false, not, ◌&&◌, ◌||◌, String, Option, none, some,
  List, [], ◌∷◌, ◌++◌, if◌then◌else◌, any, leb, ltb, length, arith, ◌==◌,
}
use axoloty_embedded.Prelude.Int.{ℤ, pos, negsuc, eq_ℤ, ltb_ℤ}
use axoloty_embedded.Outcome.{Outcome, ok, raised, rejected, ◌>>=◌, ◌>>◌, reject_if}

-- A frozenset of integers, or none for TOP: nothing is known.
abbrev pub Values : Type 0
Values = Option (List ℤ)

abbrev pub holds : ℤ → List ℤ → Bool
holds v vs = any (eq_ℤ v) vs

abbrev pub const : ℤ → Values
const n = some (n ∷ [])

unfoldable pub add_value : ℤ → List ℤ → List ℤ
add_value v vs = if holds v vs then vs else v ∷ vs

-- `a | b`
unfoldable pub join_sets : List ℤ → List ℤ → List ℤ
join_sets [] ys = ys
join_sets (x ∷ xs) ys = add_value x (join_sets xs ys)

-- A set of more than 32 values is given up.
unfoldable pub bounded : List ℤ → Values
bounded vs = if leb (length vs) 32 then some vs else none

unfoldable pub union : Values → Values → Values
union none b = none
union (some xs) none = none
union (some xs) (some ys) = bounded (join_sets xs ys)

-- `x < -(1 << 32)`, and `abs(x) >= 1 << 32`
abbrev pub is_deep : ℤ → Bool
is_deep (pos n) = false
is_deep (negsuc n) = leb (2 ^ 32) n

abbrev pub is_wide : ℤ → Bool
is_wide (pos n) = leb (2 ^ 32) n
is_wide (negsuc n) = leb (2 ^ 32) (n + 1)

-- `n & 0xffffffff`
abbrev pub low_bits : ℤ → ℕ
low_bits (pos n) = n % 2 ^ 32
low_bits (negsuc n) = 2 ^ 32 - 1 - n % 2 ^ 32

abbrev pub low_word : ℤ → ℤ
low_word n = pos (low_bits n)

abbrev pub operate : (ℤ → ℤ → ℤ) → ℤ → ℤ → ℤ
operate operation x y = if is_wide x || is_wide y then operation x y else low_word (operation x y)

unfoldable pub results_for : (ℤ → ℤ → ℤ) → ℤ → List ℤ → List ℤ
results_for operation x [] = []
results_for operation x (y ∷ ys) = add_value (operate operation x y) (results_for operation x ys)

unfoldable pub results : (ℤ → ℤ → ℤ) → List ℤ → List ℤ → List ℤ
results operation [] ys = []
results operation (x ∷ xs) ys = join_sets (results_for operation x ys) (results operation xs ys)

unfoldable pub arithmetic : Values → Values → (ℤ → ℤ → ℤ) → Values
arithmetic none b operation = none
arithmetic (some xs) none operation = none
arithmetic (some xs) (some ys) operation =
    if any is_deep xs || any is_deep ys then none else bounded (results operation xs ys)

-- The pointer and the width of a store.
abbrev pub Place : Type 0
Place = ℤ × ℕ

abbrev same_place : Place → Place → Bool
same_place a b = eq_ℤ a.0 b.0 && a.1 == b.1

-- `memory` is a dictionary from places; `regs` holds the 32 registers.
pub record State : Type 0 where
  pub regs : List Values
  pub memory : List (Place × Values)
  pub phase : ℕ

unfoldable pub recall : Place → List (Place × Values) → Option Values
recall key [] = none
recall key ((k, v) ∷ memory) =
    let rest = recall key memory in if same_place k key then some v else rest

-- `tuple(union(a, b) for a, b in zip(…))`
unfoldable pub join_registers : List Values → List Values → List Values
join_registers (a ∷ xs) (b ∷ bs) = union a b ∷ join_registers xs bs
join_registers _ _ = []

-- The keys of both.
unfoldable pub join_memory : List (Place × Values) → List (Place × Values) → List (Place × Values)
join_memory [] other = []
join_memory ((k, v) ∷ memory) other =
    let rest = join_memory memory other in
    elim (recall k other) [ none ↦ rest | some w ↦ (k, union v w) ∷ rest ]

-- `regs[2]`, and equality of sets.
abbrev third : List Values → Values
third (a ∷ b ∷ c ∷ regs) = c
third _ = none

abbrev pub within : List ℤ → List ℤ → Bool
within [] ys = true
within (x ∷ xs) ys = holds x ys && within xs ys

unfoldable pub same_values : Values → Values → Bool
same_values none none = true
same_values (some xs) (some ys) = within xs ys && within ys xs
same_values _ _ = false

unfoldable pub merge : State → State → Outcome State
merge a b = do
  reject_if (not (same_values (third a.regs) (third b.regs)))
      "inconsistent/dynamic SP at CFG join: %s vs %s"
  ok (record {
    regs = join_registers a.regs b.regs;
    memory = join_memory a.memory b.memory;
    phase = a.phase;
  })
