-- ===== src/Interval/Analyze.antt =====
-- `Engine.analyze` of Tools/EmbeddedApplicationMacros/initialization_interval.py, from the state at
-- an entry to the bound of its stack.
pub mod Reached
use axoloty_embedded.Prelude.{
  ℕ, zero, suc, ◌+◌, ◌≡◌, refl, Bool, true, false, not, ◌&&◌, ◌||◌, String, Option, none, some,
  List, [], ◌∷◌, ◌++◌, if◌then◌else◌, leb, ltb, ◌==◌, any, length, set, map,
}
use axoloty_embedded.Prelude.Int.{ℤ, pos}
use axoloty_embedded.Outcome.{
  Outcome, ok, raised, rejected, recursion_error, ◌>>=◌, ◌>>◌, reject_if,
}
use axoloty_embedded.Stack.Instruction.{Function}
use axoloty_embedded.Stack.Flow.{member}
use axoloty_embedded.Interval.{Values, State, const}
use axoloty_embedded.Interval.Registers.{known}
use axoloty_embedded.Interval.Access.{Memory, stack_top}
use axoloty_embedded.Interval.Program.{Program, function}
use axoloty_embedded.Interval.Engine.{
  Engine, Run, Frame, Options, Bound, CallKey, cached, plain, return_point, saved_value,
  saved_registers,
}
use axoloty_embedded.Interval.Visit.{visit}
use axoloty_embedded.Interval.Acyclic.{check_acyclic}
use axoloty_embedded.Interval.Worklist.{Location, location, Search, walk}

-- The registers at an entry, and the argument of a callback.
unfoldable pub set_saved : List ℕ → List Values → List Values
set_saved [] regs = regs
set_saved (r ∷ rest) regs = set_saved rest (set regs r (saved_value r))

unfoldable pub unknown_registers : ℕ → List Values
unknown_registers zero = []
unknown_registers (suc n) = none ∷ unknown_registers n

unfoldable pub entry_registers : List Values
unfolding set_saved unknown_registers
entry_registers =
    set_saved saved_registers
      (const (pos 0) ∷ const return_point ∷ const (pos stack_top) ∷ unknown_registers 29)

abbrev pub Seed : Type 0
Seed = Option (List Values × Memory)

-- A seed takes the place of all.
abbrev pub start : Values → Seed → List Values × Memory
start callback (some seed) = seed
start none none = (entry_registers, [])
start (some targets) none = (set entry_registers 11 (some targets), [])

abbrev has_seed : Seed → Bool
has_seed none = false
has_seed (some seed) = true

abbrev has_any : List ℕ → Bool
has_any [] = false
has_any (n ∷ ns) = true

abbrev pub is_special : Options → Seed → Bool
is_special options seed =
    has_seed seed
    || (has_any options.stop_calls
        || (options.skip_calls || (options.inline_calls || has_any options.stop_pcs)))

abbrev pub fresh_run : Engine → Run
fresh_run e = record {
  engine = e;
  maximum = record { depth = 0; path = [] };
  returned = 0;
  stops = [];
  local_max = 0;
  return_states = [];
}

-- The dictionary and the queue at the entry.
abbrev pub entry_search : ℕ → List Values → Memory → Search
entry_search address regs memory =
    let key = location address regs 0 in
    record {
      states = (key, record { regs = regs; memory = memory; phase = 0 }) ∷ [];
      work = key ∷ [];
    }

abbrev leave : List ℕ → List ℕ
leave [] = []
leave (address ∷ active) = active

-- What is kept of a finished analysis.
abbrev conclude : Function → CallKey → Run → Engine
conclude fn key run = record run.engine {
  active = leave run.engine.active;
  frames = (fn.name, run.local_max) ∷ run.engine.frames;
  return_values = (key, run.return_states) ∷ run.engine.return_values;
}

unfoldable pub finish : ℕ → Bool → Function → CallKey → Run → Outcome (Engine × Bound)
finish limit special fn key run = do
  completed ← check_acyclic limit run.engine.call_graph
  let e = conclude fn key run
  reject_if (not special && run.returned == 0) "no proven return from %s"
  let kept = if special then e.cache else (key, run.maximum) ∷ e.cache
  ok (record e { cache = kept; last_stops = run.stops }, run.maximum)

-- The run over the states of one function; 100000 visits are allowed.
unfoldable pub run_states : Frame → Engine → ℕ → List Values → Memory → Outcome (Run × Search)
run_states frame e address regs memory =
    walk (visit frame) 100000 (fresh_run e) (entry_search address regs memory)

abbrev pub frame_of :
    Options → (Engine → ℕ → Values → Outcome (Engine × Bound)) → List Values → Frame
frame_of options callee regs = record {
  options = options;
  initial_sp = known regs 2;
  initial_regs = regs;
  callee = callee;
}

abbrev enter : ℕ → Engine → Engine
enter address e = record e { active = address ∷ e.active }

-- An analysis that is not in the cache; `callee` analyzes a function that is called.
unfoldable pub analyze_afresh :
    ℕ
    → (Engine → ℕ → Values → Outcome (Engine × Bound))
    → Options
    → Seed
    → Engine
    → ℕ
    → Values
    → Outcome (Engine × Bound)
analyze_afresh limit callee options seed e address callback = do
  reject_if (member address e.active) "recursion at %s"
  found ← function e.program address
  let begin = start callback seed
  ended ←
      run_states (frame_of options callee begin.0) (enter address (record e { program = found.0 }))
        address begin.0 begin.1
  finish limit (is_special options seed) found.1 (record { address = address; callback = callback })
      ended.0

abbrev lookup_cache : Bool → ℕ → Values → Engine → Option Bound
lookup_cache true address callback e = none
lookup_cache false address callback e =
    cached (record { address = address; callback = callback }) e.cache

abbrev cached_or : Option Bound → Engine → Outcome (Engine × Bound) → Outcome (Engine × Bound)
cached_or none e run = run
cached_or (some bound) e run = ok (e, bound)

-- `analyze`, where `limit` calls may still stand on Python's stack.
unfoldable pub analyze : ℕ → Options → Seed → Engine → ℕ → Values → Outcome (Engine × Bound)
analyze zero options seed e address callback = raised recursion_error
analyze (suc limit) options seed e address callback =
    let run = analyze_afresh limit (analyze limit plain none) options seed e address callback in
    cached_or (lookup_cache (is_special options seed) address callback e) e run
