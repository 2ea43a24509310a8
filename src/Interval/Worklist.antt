-- ===== src/Interval/Worklist.antt =====
-- The loop of `Engine.analyze` in Tools/EmbeddedApplicationMacros/initialization_interval.py over
-- the dictionary of states and the queue of locations. What one visit does is its argument.
pub mod Sets
pub mod Table
pub mod Below
pub mod Grows
pub mod Closed
use axoloty_embedded.Prelude.{
  ℕ, zero, suc, ◌+◌, ◌≡◌, refl, Bool, true, false, not, ◌&&◌, String, Option, none, some, List, [],
  ◌∷◌, ◌++◌, if◌then◌else◌, ◌==◌, any,
}
use axoloty_embedded.Outcome.{Outcome, ok, raised, rejected, key_error, ◌>>=◌}
use axoloty_embedded.Interval.{Values, Place, State, same_values, merge, recall}
use axoloty_embedded.Interval.Registers.{known}

-- A location: the address, the values of ra, t0 and sp, and the stage.
pub record Location : Type 0 where
  pub pc : ℕ
  pub ra : Values
  pub t0 : Values
  pub sp : Values
  pub phase : ℕ

unfoldable pub location : ℕ → List Values → ℕ → Location
location pc regs phase = record {
  pc = pc;
  ra = known regs 1;
  t0 = known regs 5;
  sp = known regs 2;
  phase = phase;
}

-- Equality of the tuples.
unfoldable pub same_location : Location → Location → Bool
same_location a b =
    a.pc == b.pc
    && (a.phase == b.phase
        && (same_values a.ra b.ra && (same_values a.t0 b.t0 && same_values a.sp b.sp)))

abbrev pub Table : Type 0
Table = List (Location × State)

-- `states.get(key)` and `states[key] = state`.
unfoldable pub find : Location → Table → Option State
find key [] = none
find key ((k, s) ∷ table) =
    let rest = find key table in if same_location k key then some s else rest

unfoldable pub put : Location → State → Table → Table
put key state [] = (key, state) ∷ []
put key state ((k, s) ∷ table) =
    let rest = put key state table in
    if same_location k key then (k, state) ∷ table else (k, s) ∷ rest

-- Equality of states: tuples of registers, dictionaries, stages.
unfoldable pub same_registers : List Values → List Values → Bool
same_registers [] [] = true
same_registers (a ∷ xs) (b ∷ bs) = same_values a b && same_registers xs bs
same_registers _ _ = false

abbrev pub agrees : Values → Option Values → Bool
agrees v none = false
agrees v (some w) = same_values v w

unfoldable pub facts_within : List (Place × Values) → List (Place × Values) → Bool
facts_within [] other = true
facts_within ((k, v) ∷ memory) other = agrees v (recall k other) && facts_within memory other

unfoldable pub same_state : State → State → Bool
same_state a b =
    same_registers a.regs b.regs
    && (facts_within a.memory b.memory && (facts_within b.memory a.memory && a.phase == b.phase))

-- The dictionary and the queue.
pub record Search : Type 0 where
  pub states : Table
  pub work : List Location

abbrev pub enter : Location → State → Search → Search
enter key state s = record { states = put key state s.states; work = s.work ++ (key ∷ []) }

-- A successor: new, joined with the state that is there, or nothing new.
unfoldable pub push : Location → State → Search → Outcome Search
push key state s = elim (find key s.states) [
  | none ↦ ok (enter key state s)
  | some old ↦
      merge old state >>= λ joined. ok (if same_state joined old then s else enter key joined s)
]

unfoldable pub push_all : List (Location × State) → Search → Outcome Search
push_all [] s = ok s
push_all ((key, state) ∷ rest) s = do next ← push key state s; push_all rest next

-- The rest of what a run keeps is a context of the visits.
module _ {C : Type 0} (visit : C → ℕ → State → Outcome (C × List (Location × State))) where
  unfoldable pub visit_next : C → Search → Location → Outcome (C × Search)
  visit_next context s key = elim (find key s.states) [
    | none ↦ raised key_error
    | some state ↦
        visit context key.pc state >>= λ after. push_all after.1 s >>= λ next. ok (after.0, next)
  ]

  -- `count` is the number of visits that are left before the loop gives up.
  unfoldable pub walk : ℕ → C → Search → Outcome (C × Search)
  walk zero context s = elim s.work [
    | [] ↦ ok (context, s)
    | key ∷ rest ↦ raised (rejected "abstract CFG did not converge for %s")
  ]
  walk (suc left) context s = elim s.work [
    | [] ↦ ok (context, s)
    | key ∷ rest ↦
        visit_next context (record s { work = rest }) key >>= λ next. walk left next.0 next.1
  ]
