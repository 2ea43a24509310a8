-- ===== src/Interval/Call.antt =====
-- What `Engine.analyze` of Tools/EmbeddedApplicationMacros/initialization_interval.py does for each
-- destination of a jump.
pub mod Rises
use axoloty_embedded.Prelude.{
  ℕ, suc, ◌+◌, ◌-◌, ◌^◌, ◌≡◌, refl, Bool, true, false, not, ◌&&◌, ◌||◌, String, str_eq, Option,
  none, some, List, [], ◌∷◌, ◌++◌, if◌then◌else◌, leb, ltb, ◌==◌, any, all, select, sort_by, map,
  length,
}
use axoloty_embedded.Prelude.Int.{ℤ, pos, negsuc, leb_ℤ, eq_ℤ}
use axoloty_embedded.Outcome.{Outcome, ok, raised, rejected, ◌>>=◌, ◌>>◌, reject_if}
use axoloty_embedded.Stack.Instruction.{Instruction, Function}
use axoloty_embedded.Stack.Flow.{member}
use axoloty_embedded.Stack.Operands.{text_in}
use axoloty_embedded.Interval.{Values, State, const, holds, join_sets}
use axoloty_embedded.Interval.Registers.{known}
use axoloty_embedded.Interval.Alu.{set_register}
use axoloty_embedded.Interval.Access.{Memory}
use axoloty_embedded.Interval.Program.{Program, function}
use axoloty_embedded.Interval.Engine.{
  return_point, caller_registers, exceptional_names, CallKey, Bound, Edge, StageSite, Binding, Stop,
  Engine, cached, Options, Run, Frame, Turn, raise_bound,
}
use axoloty_embedded.Interval.Jump.{
  with_engine, copy_facts, clobber, export, result_registers, states_or_none, return_from,
  jump_parts,
}

-- A jump that is being followed: its instruction, the function that it stands in, the depth there,
-- and the link register.
pub record Site : Type 0 where
  pub pc : ℕ
  pub following : ℕ
  pub owner : Function
  pub depth : ℕ
  pub link : ℕ

abbrev pub links : Site → Bool
links site = member site.link (0 ∷ 1 ∷ 5 ∷ [])

pub record_edge : Site → Function → ℕ → Engine → Engine
record_edge site fn target e = record e {
  edges =
      record {
        caller = site.owner.name;
        pc = site.pc;
        callee = fn.name;
        target = target;
        link = site.link;
      }
      ∷ e.edges;
  call_graph =
      if target == fn.start && (not (fn.start == site.owner.start) && links site)
      then (site.owner.start, fn.start) ∷ e.call_graph
      else e.call_graph;
}

abbrev pub is_once : Function → Bool
is_once fn = str_eq fn.name "swift_once"

pub bind_values : Site → Values → Values → Turn → Outcome Turn
bind_values site (some guards) (some callbacks) t = ok (
    with_engine
      (λ e. record e {
        bindings =
            record {
              pc = site.pc;
              guards = sort_by leb_ℤ guards;
              callbacks = sort_by leb_ℤ callbacks;
            }
            ∷ e.bindings;
      })
      t)
bind_values site _ _ t = raised (rejected "unresolved swift_once guard/callback at %s")

pub bind_callback : Site → Function → Turn → Outcome Turn
unfolding bind_values
bind_callback site fn t =
    if is_once fn then bind_values site (known t.regs 10) (known t.regs 11) t else ok t

-- `stages.index(target)`, for a target of the stages.
unfoldable pub stage_index : ℕ → List ℕ → Option ℕ
stage_index target [] = none
stage_index target (stage ∷ rest) =
    let later = stage_index target rest in
    if stage == target then some 0 else elim later [ none ↦ none | some n ↦ some (n + 1) ]

abbrev pub enter_stage : Site → ℕ → Option ℕ → Turn → Outcome Turn
enter_stage site target none t = ok t
enter_stage site target (some index) t = do
  reject_if (not (t.phase == index)) "begin/hook/end order violation at %s"
  let phase = t.phase + 1
  ok
      (record (with_engine
        (λ e. record e {
          stage_sites =
              record { stage = phase; pc = site.pc; target = target; depth = site.depth }
              ∷ e.stage_sites;
        })
        t) { phase = phase })

unfoldable pub advance_stage : Frame → Site → ℕ → Turn → Outcome Turn
unfolding stage_index
advance_stage frame site target t =
    enter_stage site target (stage_index target frame.options.stages) t

pub stop_at : Site → ℕ → Turn → Turn
stop_at site target t = record t {
  run = record t.run {
    stops =
        t.run.stops
        ++ (record {
          pc = site.pc;
          target = target;
          depth = pos site.depth;
          state = record { regs = t.regs; memory = t.memory; phase = t.phase };
        }
            ∷ []);
  };
}

pub except_at : Site → Function → Turn → Turn
except_at site fn t =
    with_engine (λ e. record e { exceptions = (site.pc, fn.name) ∷ e.exceptions }) t

-- A helper that runs in this frame.
pub is_internal : Frame → Site → Function → ℕ → Bool
is_internal frame site fn target =
    fn.start == site.owner.start
    || (member site.link (0 ∷ 5 ∷ [])
        || (frame.options.inline_calls && not (member target frame.options.summaries)))

pub stay : Site → ℕ → Turn → Turn
stay site target t = record t {
  regs = set_register site.link (const (pos site.following)) t.regs;
  targets = t.targets ++ (target ∷ []);
}

abbrev skipped : Frame → ℕ → Bool
skipped frame target = frame.options.skip_calls && not (member target frame.options.summaries)

abbrev summarized : Frame → ℕ → Bool
summarized frame target = frame.options.skip_calls && member target frame.options.summaries

unfoldable pub callee_bound : Frame → ℕ → Values → Engine → Outcome (Engine × Bound)
callee_bound frame target callback e =
    if skipped frame target
    then ok (e, record { depth = 0; path = [] })
    else frame.callee e target callback

-- The state behind a call that returns to the next instruction.
unfoldable pub returned_turn : Frame → Site → ℕ → Values → Engine → Bound → Turn → Turn
unfolding clobber export copy_facts
returned_turn frame site target callback e bound t =
    let exported =
      if summarized frame target
      then states_or_none
          (cached (record { address = target; callback = callback }) e.return_values)
      else [] in
    record t {
      run = record t.run {
        engine = e;
        maximum =
            raise_bound (site.depth + bound.depth) ((site.owner.name, site.pc) ∷ bound.path)
              t.run.maximum;
      };
      regs =
          export result_registers exported
            (set_register site.link (const (pos site.following)) (clobber caller_registers t.regs));
      memory =
          if target == e.program.rom_memcpy
          then copy_facts (known t.regs 10) (known t.regs 11) (known t.regs 12) t.memory
          else t.memory;
      targets = t.targets ++ (site.following ∷ []);
    }

unfoldable pub call : Frame → Site → Function → ℕ → Turn → Outcome Turn
call frame site fn target t = do
  let callback = if is_once fn then known t.regs 11 else none
  after ← callee_bound frame target callback t.run.engine
  ok (returned_turn frame site target callback after.0 after.1 t)

unfoldable pub arrive : Frame → Site → Function → ℕ → Turn → Outcome Turn
unfolding stop_at except_at is_internal stay
arrive frame site fn target t =
    if member target frame.options.stop_calls
    then ok (stop_at site target t)
    else if text_in fn.name exceptional_names
    then ok (except_at site fn t)
    else if is_internal frame site fn target
    then ok (stay site target t)
    else call frame site fn target t

-- One destination; a negative address is in no function.
unfoldable pub transfer : Frame → Site → ℤ → Turn → Outcome Turn
unfolding record_edge bind_callback
transfer frame site (negsuc n) t = raised (rejected "missing STT_FUNC body at %s")
transfer frame site (pos target) t = do
  found ← function t.run.engine.program target
  let fn = found.1
  let t₁ = with_engine (λ e. record e { program = found.0 }) t
  reject_if (target == site.owner.start && links site) "recursive entry call at %s"
  t₂ ← bind_callback site fn (with_engine (record_edge site fn target) t₁)
  t₃ ← advance_stage frame site target t₂
  arrive frame site fn target t₃

unfoldable pub transfer_all : Frame → Site → List ℤ → Turn → Outcome Turn
transfer_all frame site [] t = ok t
transfer_all frame site (target ∷ rest) t = do
  next ← transfer frame site target t
  transfer_all frame site rest next

dispatches_at : ℕ → List (ℕ × List ℤ) → List ℤ
dispatches_at pc [] = []
dispatches_at pc ((at_, targets) ∷ rest) =
    let later = dispatches_at pc rest in if at_ == pc then targets else later

-- Several destinations are recorded as a computed dispatch.
record_dispatch : ℕ → List ℤ → Engine → Engine
unfolding dispatches_at
record_dispatch pc targets e =
    if ltb 1 (length targets)
    then record e {
      dispatches =
          (pc, sort_by leb_ℤ (join_sets targets (dispatches_at pc e.dispatches))) ∷ e.dispatches;
    }
    else e

abbrev others : List ℤ → List ℤ
others targets = select (λ v. not (eq_ℤ v return_point)) targets

unfoldable pub follow_others : Frame → Site → List ℤ → Turn → Outcome Turn
unfolding record_dispatch
follow_others frame site [] t = ok t
follow_others frame site (target ∷ rest) t =
    transfer_all frame site (sort_by leb_ℤ (target ∷ rest))
      (record (with_engine (record_dispatch site.pc (target ∷ rest)) t) { targets = [] })

abbrev follow_return : Frame → Bool → Turn → Outcome Turn
follow_return frame false t = ok t
follow_return frame true t = return_from frame t

unfoldable pub destinations : Frame → Site → Values → Turn → Outcome Turn
destinations frame site none t = raised (rejected "unknown indirect transfer at %s (%s)")
destinations frame site (some targets) t = do
  t₁ ← follow_return frame (holds return_point targets) t
  follow_others frame site (others targets) t₁

-- A jump.
unfoldable pub jump : Frame → Site → Instruction → Turn → Outcome Turn
jump frame site ins t = do
  parts ← jump_parts ins t.regs
  destinations frame (record site { link = parts.0 }) parts.1 t
