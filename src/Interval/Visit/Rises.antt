-- ===== src/Interval/Visit/Rises.antt =====
-- A visit finds at least the depth of its state, and loses no depth found before.
use axoloty_embedded.Prelude.{
  ℕ, ◌+◌, ◌++◌, ◌≡◌, ◌≤◌, refl, false, not, ◌&&◌, Option, none, some, List, [], ◌∷◌, Bool-cases,
  inl, inr, arith, ◌==◌, ap,
}
use mathlib.Core.Path.{subst}
use axoloty_embedded.Prelude.Int.{ℤ}
use axoloty_embedded.Outcome.{Outcome, ok, raised, >>=-eq-ok, reject_if-eq-ok}
use axoloty_embedded.Stack.Instruction.{Instruction, Function}
use axoloty_embedded.Stack.Flow.{member}
use axoloty_embedded.Stack.Operands.{text_in}
use axoloty_embedded.Interval.{State, rejected, length}
use axoloty_embedded.Interval.Registers.{known}
use axoloty_embedded.Interval.Branch.{operands, zero_branches, pair_branches}
use axoloty_embedded.Interval.Transfer.{data_step, is_known}
use axoloty_embedded.Interval.Program.{function, encoded_at}
use axoloty_embedded.Interval.Engine.{Run, Frame, Turn, single, depth_of}
use axoloty_embedded.Interval.Jump.{jump_names, has_stages}
use axoloty_embedded.Interval.Call
use axoloty_embedded.Interval.Call.{jump}
use axoloty_embedded.Interval.Call.Rises.{
  Rises, found_depth, same-Rises, if-Rises, then-Rises, guard-Rises, jump-Rises, le-raise_bound,
  raise_bound-ge,
}
use axoloty_embedded.Interval.Worklist.{Location}
use axoloty_embedded.Interval.Visit.{
  branch_turn, jump_turn, data_turn, trap_turn, instruction_turn, stop_visit, instruction_visit,
  visit, at_depth, trap_names, sp_found, instruction_found, some_value, successor_states, distinct,
}

branch_turn-Rises :
    (ins : Instruction) (following : ℕ) (t : Turn) → Rises t (branch_turn ins following t)
branch_turn-Rises ins following t next h = by_target ins.target h
  where
    by_target :
        (target : Option ℕ)
        → (elim target [
          | none ↦ raised (rejected "unresolved branch at %s")
          | some pc ↦ ok (record t { targets = following ∷ pc ∷ [] })
        ])
          ≡ ok next
        → found_depth t.run ≤ found_depth next.run
    by_target none k = absurd (cc)
    by_target (some pc) k = same-Rises t (record t { targets = following ∷ pc ∷ [] }) refl next k

jump_turn-Rises :
    (frame : Frame) (site : Call.Site) (ins : Instruction) (t : Turn)
    → Rises t (jump_turn frame site ins t)
unfolding jump_turn
jump_turn-Rises frame site ins t =
    then-Rises t (jump frame site ins t) _ (jump-Rises frame site ins t) (λ next.
      guard-Rises next (not (is_known (known next.regs 2))) "unknown SP at %s" (ok next)
        (same-Rises next next refl))

data_turn-Rises :
    (ins : Instruction) (following : ℕ) (sp : ℤ) (t : Turn) → Rises t (data_turn ins following sp t)
unfolding data_turn
data_turn-Rises ins following sp t next h =
    let (effect, e, h₁) = >>=-eq-ok (data_step _ (operands ins) t.regs t.memory) _ h in
    same-Rises t _ refl next h₁

instruction_turn-Rises :
    (frame : Frame) (ins : Instruction) (owner : Function) (depth : ℕ) (sp : ℤ) (t : Turn)
    → Rises t (instruction_turn frame ins owner depth sp t)
unfolding instruction_turn
instruction_turn-Rises frame ins owner depth sp t =
    let following = ins.address + ins.size in
    if-Rises t (text_in ins.mnemonic trap_names) _ _ (same-Rises t (trap_turn ins t) refl) (
      if-Rises t (text_in ins.mnemonic (zero_branches ++ pair_branches)) _ _
        (branch_turn-Rises ins following t)
        (if-Rises t (text_in ins.mnemonic jump_names) _ _ (jump_turn-Rises frame _ ins t)
          (data_turn-Rises ins following sp t)))

-- What a run of a visit shows: the depth found before stands, and a depth of its own is found.
abbrev pub Shows : Run → ℕ → Outcome (Run × List (Location × State)) → Type 0
Shows run depth visited =
    (later : Run) (items : List (Location × State))
    → visited ≡ ok (later, items)
    → (found_depth run ≤ found_depth later) × (depth ≤ found_depth later)

-- The depth of a state is that of its sp.
abbrev pub HasDepth : State → ℕ → Type 0
HasDepth state depth = (sp : ℤ) × (single (known state.regs 2) ≡ some sp) × (depth_of sp ≡ ok depth)

first_of :
    {a b : Run} {xs ys : List (Location × State)}
    → ◌≡◌ {A = Outcome (Run × List (Location × State))} (ok (a, xs)) (ok (b, ys))
    → a ≡ b
first_of h = cc

sp_found-eq : (o : Option ℤ) (sp : ℤ) → sp_found o ≡ ok sp → o ≡ some sp
unfolding sp_found
sp_found-eq none sp h = absurd (cc)
sp_found-eq (some v) sp h = cc

pub instruction_visit-depth :
    (frame : Frame) (run later : Run) (pc : ℕ) (state : State) (items : List (Location × State))
    → instruction_visit frame run pc state ≡ ok (later, items)
    → (depth : ℕ) × HasDepth state depth
      × (found_depth run ≤ found_depth later)
      × (depth ≤ found_depth later)
unfolding instruction_visit
instruction_visit-depth frame run later pc state items h =
    let (found, f, h₁) = >>=-eq-ok (function run.engine.program pc) _ h in
    let (ins, i, h₂) = >>=-eq-ok (instruction_found (encoded_at pc found.0.instructions)) _ h₁ in
    let (sp, s, h₃) = >>=-eq-ok (sp_found (single (known state.regs 2))) _ h₂ in
    let (depth, d, h₄) = >>=-eq-ok (depth_of sp) _ h₃ in
    let run₁ : Run = record run { engine = record run.engine { program = found.0 } } in
    let t : Turn = record {
      run = at_depth depth found.1.name pc run₁;
      regs = state.regs;
      memory = state.memory;
      phase = state.phase;
      targets = (ins.address + ins.size) ∷ [];
    } in
    let (turn, e, h₅) = >>=-eq-ok (instruction_turn frame ins found.1 depth sp t) _ h₄ in
    let (outs, o, h₆) = >>=-eq-ok (successor_states ins turn (distinct turn.targets)) _ h₅ in
    let rises = instruction_turn-Rises frame ins found.1 depth sp t turn e in
    let same : turn.run ≡ later = first_of h₆ in
    let path = (found.1.name, pc) ∷ [] in
    let l = le-raise_bound depth path run.maximum in
    let g = raise_bound-ge depth path run.maximum in
    (
      depth,
      (sp, sp_found-eq _ sp s, d),
      subst (λ (r : Run). found_depth run ≤ found_depth r) same (omega (arith, l, rises)),
      subst (λ (r : Run). depth ≤ found_depth r) same (omega (arith, g, rises)),
    )

stop_visit-le :
    (frame : Frame) (run later : Run) (pc : ℕ) (state : State) (items : List (Location × State))
    → stop_visit frame run pc state ≡ ok (later, items)
    → found_depth run ≤ found_depth later
unfolding stop_visit
stop_visit-le frame run later pc state items h =
    let (a, h₁) =
      reject_if-eq-ok (has_stages frame.options && not (state.phase == length frame.options.stages))
        _ _ h in
    let (sp, s, h₂) = >>=-eq-ok (some_value (known state.regs 2)) _ h₁ in
    let e : found_depth run ≡ found_depth later = ap found_depth (first_of h₂) in same_le e
  where
    same_le : found_depth run ≡ found_depth later → found_depth run ≤ found_depth later
    same_le e = omega (arith, e)

pub visit-le :
    (frame : Frame) (run later : Run) (pc : ℕ) (state : State) (items : List (Location × State))
    → visit frame run pc state ≡ ok (later, items)
    → found_depth run ≤ found_depth later
unfolding visit
visit-le frame run later pc state items h = elim (Bool-cases (member pc frame.options.stop_pcs)) [
  | inl e ↦ stop_visit-le frame _ later pc state items (rw e at h)
  | inr e ↦
      let (depth, has, l, g) = instruction_visit-depth frame _ later pc state items (rw e at h) in l
]

-- A visit that is no stop finds the depth of its state.
pub visit-depth :
    (frame : Frame) (run later : Run) (pc : ℕ) (state : State) (items : List (Location × State))
    → visit frame run pc state ≡ ok (later, items)
    → member pc frame.options.stop_pcs ≡ false
    → (depth : ℕ) × HasDepth state depth × (depth ≤ found_depth later)
unfolding visit
visit-depth frame run later pc state items h e =
    let (depth, has, l, g) = instruction_visit-depth frame _ later pc state items (rw e at h) in
    (depth, has, g)
