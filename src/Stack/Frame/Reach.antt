-- ===== src/Stack/Frame/Reach.antt =====
-- The walks that control can take through a function, and what a settled point means.
use axoloty_embedded.Prelude.{ℕ, ◌≡◌, Bool, true, none, some, In}
use axoloty_embedded.Prelude.Int.{ℤ, pos, ◌+ℤ◌, ◌≤ℤ◌}
use axoloty_embedded.Stack.Instruction.{Instruction, Function}
use axoloty_embedded.Stack.Operands.{stack_step}
use axoloty_embedded.Stack.Flow.{Flow}
use axoloty_embedded.Stack.Frame.{Point, fetch, flow_of, starts_of}

abbrev pub flow_at : Function → Bool → ℕ → Instruction → Flow
flow_at fn linkreg_return index ins = flow_of fn linkreg_return (starts_of fn) index ins

-- One instruction: sp changes by its step, and control goes to one of its successors.
pub data Edge (fn : Function) (linkreg_return : Bool) : Point → Point → Type 0 where
  edge :
      {pc : ℕ} {d : ℤ} {next : ℕ} (index : ℕ) (ins : Instruction) (change : ℤ)
      → fetch fn pc ≡ some (index, ins)
      → stack_step ins ≡ some change
      → In next (flow_at fn linkreg_return index ins).next
      → Edge fn linkreg_return (pc, d) (next, d +ℤ change)

pub data Walk (fn : Function) (linkreg_return : Bool) (entry : Point) : Point → Type 0 where
  start : Walk fn linkreg_return entry entry
  then_edge :
      {p q : Point}
      → Walk fn linkreg_return entry p
      → Edge fn linkreg_return p q
      → Walk fn linkreg_return entry q

-- A point at which nothing is left open: its instruction is decoded, its step keeps sp at or above
-- `bound`, its control flow is understood, and where the function ends sp is back.
pub record Settled (fn : Function) (linkreg_return : Bool) (bound : ℤ) (p : Point) : Type 0 where
  pub index : ℕ
  pub ins : Instruction
  pub change : ℤ
  pub fetched : fetch fn p.0 ≡ some (index, ins)
  pub stepped : stack_step ins ≡ some change
  pub bounded : bound ≤ℤ (p.1 +ℤ change)
  pub understood : (flow_at fn linkreg_return index ins).problem ≡ none
  pub balanced : (flow_at fn linkreg_return index ins).exit ≡ true → p.1 +ℤ change ≡ pos 0
