-- ===== src/Interval/Visit.antt =====
-- One visit of a state in `Engine.analyze` of
-- Tools/EmbeddedApplicationMacros/initialization_interval.py: the instruction at its address, and
-- the states behind it.
pub mod Rises
use axoloty_embedded.Prelude.{
  ℕ, suc, ◌+◌, ◌≡◌, refl, Bool, true, false, not, ◌&&◌, ◌||◌, String, Option, none, some, List, [],
  ◌∷◌, ◌++◌, if◌then◌else◌, leb, ltb, ◌==◌, any, length, max,
}
use axoloty_embedded.Prelude.Int.{ℤ, pos, ◌-ℤ◌}
use axoloty_embedded.Outcome.{Outcome, ok, raised, rejected, type_error, ◌>>=◌, ◌>>◌, reject_if}
use axoloty_embedded.Stack.Instruction.{Instruction, Function}
use axoloty_embedded.Stack.Flow.{member}
use axoloty_embedded.Stack.Operands.{text_in}
use axoloty_embedded.Stack.Linked.{Encoded}
use axoloty_embedded.Interval.{Values, State}
use axoloty_embedded.Interval.Registers.{known}
use axoloty_embedded.Interval.Branch.{operands, refine, zero_branches, pair_branches}
use axoloty_embedded.Interval.Access.{Memory, Effect, stack_top}
use axoloty_embedded.Interval.Transfer.{data_step, is_known}
use axoloty_embedded.Interval.Program.{Program, function, encoded_at}
use axoloty_embedded.Interval.Engine.{Engine, Run, Frame, Turn, Stop, single, depth_of, raise_bound}
use axoloty_embedded.Interval.Jump.{with_engine, jump_names, has_stages}
use axoloty_embedded.Interval.Call
use axoloty_embedded.Interval.Call.{jump}
use axoloty_embedded.Interval.Worklist.{Location, location}

abbrev pub trap_names : List String
trap_names = "c.unimp" ∷ "unimp" ∷ "ebreak" ∷ "c.ebreak" ∷ []

abbrev pub branch_turn : Instruction → ℕ → Turn → Outcome Turn
branch_turn ins following t = elim ins.target [
  | none ↦ raised (rejected "unresolved branch at %s")
  | some target ↦ ok (record t { targets = following ∷ target ∷ [] })
]

jump_turn : Frame → Call.Site → Instruction → Turn → Outcome Turn
jump_turn frame site ins t = do
  next ← jump frame site ins t
  reject_if (not (is_known (known next.regs 2))) "unknown SP at %s"
  ok next

data_turn : Instruction → ℕ → ℤ → Turn → Outcome Turn
data_turn ins following sp t = do
  effect ←
      data_step
        (record {
          sections = t.run.engine.program.sections;
          pc = ins.address;
          mnemonic = ins.mnemonic;
          sp = sp;
        })
        (operands ins) t.regs t.memory
  ok (record (with_engine (λ e. record e { accesses = effect.accesses ++ e.accesses }) t) {
    regs = effect.regs;
    memory = effect.memory;
    targets = following ∷ [];
  })

trap_turn : Instruction → Turn → Turn
trap_turn ins t =
    record (with_engine (λ e. record e { exceptions = (ins.address, ins.mnemonic) ∷ e.exceptions })
      t) { targets = [] }

-- The instruction by its name. The test of sp behind data instructions is in `data_step`.
unfoldable pub instruction_turn : Frame → Instruction → Function → ℕ → ℤ → Turn → Outcome Turn
unfolding jump_turn data_turn trap_turn
instruction_turn frame ins owner depth sp t =
    let following = ins.address + ins.size in
    if text_in ins.mnemonic trap_names
    then ok (trap_turn ins t)
    else if text_in ins.mnemonic (zero_branches ++ pair_branches)
    then branch_turn ins following t
    else if text_in ins.mnemonic jump_names
    then jump_turn frame
        (record { pc = ins.address; following = following; owner = owner; depth = depth; link = 0 })
        ins t
    else data_turn ins following sp t

distinct : List ℕ → List ℕ
distinct [] = []
distinct (n ∷ ns) = let rest = distinct ns in if member n rest then rest else n ∷ rest

abbrev add_successor :
    ℕ → Memory → ℕ → Option (List Values) → List (Location × State) → List (Location × State)
add_successor target memory phase none items = items
add_successor target memory phase (some regs) items =
    (location target regs phase, record { regs = regs; memory = memory; phase = phase }) ∷ items

-- The states on the edges to the targets, all of them before the first is pushed: the program pushes
-- each at once, which makes a difference only to which of two errors is raised.
unfoldable pub successor_states : Instruction → Turn → List ℕ → Outcome (List (Location × State))
successor_states ins t [] = ok []
successor_states ins t (target ∷ rest) = do
  regs ← refine ins target t.regs
  items ← successor_states ins t rest
  ok (add_successor target t.memory t.phase regs items)

instruction_found : Option Encoded → Outcome Instruction
instruction_found none = raised (rejected "missing instruction at %s")
instruction_found (some e) = ok e.ins

sp_found : Option ℤ → Outcome ℤ
sp_found none = raised (rejected "unknown/dynamic SP at %s")
sp_found (some sp) = ok sp

-- `next(iter(…))`, which the end of an interval takes of sp without a test.
abbrev some_value : Values → Outcome ℤ
some_value (some (v ∷ vs)) = ok v
some_value _ = raised type_error

-- A state at an address where the interval ends.
unfoldable pub stop_visit : Frame → Run → ℕ → State → Outcome (Run × List (Location × State))
stop_visit frame run pc state = do
  reject_if (has_stages frame.options && not (state.phase == length frame.options.stages))
      "interval end reached before begin/hook/end sequence"
  sp ← some_value (known state.regs 2)
  let stop : Stop = record { pc = pc; target = pc; depth = pos stack_top -ℤ sp; state = state }
  ok (record run { stops = run.stops ++ (stop ∷ []) }, [])

abbrev at_depth : ℕ → String → ℕ → Run → Run
at_depth depth name pc run = record run {
  local_max = max run.local_max depth;
  maximum = raise_bound depth ((name, pc) ∷ []) run.maximum;
}

unfoldable pub instruction_visit : Frame → Run → ℕ → State → Outcome (Run × List (Location × State))
unfolding instruction_found sp_found distinct
instruction_visit frame run pc state = do
  found ← function run.engine.program pc
  ins ← instruction_found (encoded_at pc found.0.instructions)
  sp ← sp_found (single (known state.regs 2))
  depth ← depth_of sp
  let run₁ = record run { engine = record run.engine { program = found.0 } }
  turn ← instruction_turn frame ins found.1 depth sp (record {
    run = at_depth depth found.1.name pc run₁;
    regs = state.regs;
    memory = state.memory;
    phase = state.phase;
    targets = (ins.address + ins.size) ∷ [];
  })
  items ← successor_states ins turn (distinct turn.targets)
  ok (turn.run, items)

-- A visit: the stop, or the instruction.
unfoldable pub visit : Frame → Run → ℕ → State → Outcome (Run × List (Location × State))
visit frame run pc state =
    let seen = record run { engine = record run.engine { visited = pc ∷ run.engine.visited } } in
    if member pc frame.options.stop_pcs
    then stop_visit frame seen pc state
    else instruction_visit frame seen pc state
