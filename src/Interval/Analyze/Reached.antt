-- ===== src/Interval/Analyze/Reached.antt =====
-- What an analysis that returns says of every state that it reached.
use axoloty_embedded.Prelude.{
  ℕ, ◌≡◌, ◌≤◌, refl, false, some, List, inl, inr, Bool-cases, All, arith,
}
use axoloty_embedded.Outcome.{ok}
use axoloty_embedded.Stack.Flow.{member}
use axoloty_embedded.Interval.{Values, State}
use axoloty_embedded.Interval.Access.{Memory}
use axoloty_embedded.Interval.Engine.{Engine, Run, Frame}
use axoloty_embedded.Interval.Call.Rises.{found_depth}
use axoloty_embedded.Interval.Visit.{visit}
use axoloty_embedded.Interval.Visit.Rises.{HasDepth, visit-le, visit-depth}
use axoloty_embedded.Interval.Worklist.{Location, location, Search, find, same_location}
use axoloty_embedded.Interval.Worklist.Table.{same_location_sym, same_location_refl}
use axoloty_embedded.Interval.Worklist.Grows.{Covered, Raises}
use axoloty_embedded.Interval.Worklist.Closed.{
  walk-IsClosed, IsConsistent, IsClosed, Ran, here, Ran-le,
}
use axoloty_embedded.Interval.Analyze.{run_states, entry_search, fresh_run}

-- No visit of a frame lowers the depth.
frame_grows :
    (frame : Frame) (run later : Run) (pc : ℕ) (state : State) (items : List (Location × State))
    → visit frame run pc state ≡ ok (later, items)
    → found_depth run ≤ found_depth later
frame_grows frame run later pc state items h = visit-le frame run later pc state items h

module _ (frame : Frame) (e : Engine) (address : ℕ) (regs : List Values) (memory : Memory) where
  entry_search-IsConsistent :
      IsConsistent (visit frame) (fresh_run e) (fresh_run e) (entry_search address regs memory)
  unfolding find
  entry_search-IsConsistent key state h =
      let entry = location address regs 0 in
      elim (Bool-cases (same_location entry key)) [
        | inl e ↦ inl (rw (same_location_sym entry key e) refl)
        | inr e ↦ absurd (cc (rw e at h))
      ]

  closed :
      (run : Run) (s : Search)
      → run_states frame e address regs memory ≡ ok (run, s)
      → IsClosed (visit frame) (fresh_run e) run s.states
        × Raises (entry_search address regs memory).states s.states
  unfolding run_states
  closed run s h =
      walk-IsClosed (visit frame) (fresh_run e) 100000 (fresh_run e) run
        (entry_search address regs memory) s h (here (fresh_run e)) entry_search-IsConsistent

-- If the loop over the states of a function returns, then its table is closed: it has a state for
-- the entry that allows the registers and the memory facts there; and for every state in it, as it
-- stands there, there is a visit of it on the way from the run that starts with the engine given to
-- the run that is returned, by visits alone, and all that this visit led to is covered by states of
-- the table, which allow the same and more.
pub run_states-IsClosed :
    (frame : Frame) (e : Engine) (address : ℕ) (regs : List Values) (memory : Memory) (run : Run)
    (s : Search)
    → run_states frame e address regs memory ≡ ok (run, s)
    → Covered s.states (location address regs 0, record { regs = regs; memory = memory; phase = 0 })
      × ((key : Location) (state : State)
          → find key s.states ≡ some state
          → (before : Run) × (after : Run) × (items : List (Location × State)) × Ran
              (visit frame)
              (fresh_run e)
              before
            × (visit frame before key.pc state ≡ ok (after, items))
            × Ran (visit frame) after run
            × All (Covered s.states) items)
unfolding find
run_states-IsClosed frame e address regs memory run s h =
    let (done, raised_too) = closed frame e address regs memory run s h in
    let entry = location address regs 0 in
    (
      raised_too entry (record { regs = regs; memory = memory; phase = 0 })
          (rw (same_location_refl entry) refl),
      done,
    )

-- If the loop over the states of a function returns, then every state in its table, but those at
-- addresses where the analysis stops, has one known sp, whose depth below the top of the stack is
-- at most the maximum that the run reports.
pub run_states-depth :
    (frame : Frame) (e : Engine) (address : ℕ) (regs : List Values) (memory : Memory) (run : Run)
    (s : Search) (key : Location) (state : State)
    → run_states frame e address regs memory ≡ ok (run, s)
    → find key s.states ≡ some state
    → member key.pc frame.options.stop_pcs ≡ false
    → (depth : ℕ) × HasDepth state depth × (depth ≤ found_depth run)
run_states-depth frame e address regs memory run s key state h f n =
    let (done, raised_too) = closed frame e address regs memory run s h in
    let (c, c', items, b, v, r, cs) = done key state f in
    let (depth, has, l) = visit-depth frame c c' key.pc state items v n in
    (depth, has, omega (arith, l, Ran-le (visit frame) found_depth (frame_grows frame) c' run r))
