-- ===== src/Interval/Engine.antt =====
-- What the `Engine` of Tools/EmbeddedApplicationMacros/initialization_interval.py keeps, and what
-- one analysis keeps while it runs. A list stands for a set where the program has a set; an element
-- may stand in it twice.
use axoloty_embedded.Prelude.{
  ℕ, ◌+◌, ◌-◌, ◌^◌, Bool, false, ◌&&◌, String, Option, none, some, List, [], ◌∷◌, if◌then◌else◌,
  leb, ltb, ◌==◌,
}
use axoloty_embedded.Prelude.Int.{ℤ, pos, negsuc}
use axoloty_embedded.Outcome.{Outcome, ok, raised, rejected}
use axoloty_embedded.Interval.{Values, State, const, same_values}
use axoloty_embedded.Interval.Access.{Memory, Access, stack_top}
use axoloty_embedded.Interval.Program.{Program}

-- RETURN
abbrev pub return_point : ℤ
return_point = negsuc (2 ^ 48 - 1)

-- `const(RETURN - r)`
abbrev pub saved_value : ℕ → Values
saved_value r = const (negsuc (2 ^ 48 + r - 1))

-- SAVED and CALLER
abbrev pub saved_registers : List ℕ
saved_registers = 8 ∷ 9 ∷ 18 ∷ 19 ∷ 20 ∷ 21 ∷ 22 ∷ 23 ∷ 24 ∷ 25 ∷ 26 ∷ 27 ∷ []

abbrev pub caller_registers : List ℕ
caller_registers = 1 ∷ 5 ∷ 6 ∷ 7 ∷ 10 ∷ 11 ∷ 12 ∷ 13 ∷ 14 ∷ 15 ∷ 16 ∷ 17 ∷ 28 ∷ 29 ∷ 30 ∷ 31 ∷ []

abbrev pub exceptional_names : List String
exceptional_names =
    "__stack_chk_fail" ∷ "__assert_func" ∷ "abort" ∷ "panic_abort" ∷ "esp_system_abort"
    ∷ "_esp_error_check_failed" ∷ []

-- The key of a cached result.
pub record CallKey : Type 0 where
  pub address : ℕ
  pub callback : Values

abbrev pub same_call : CallKey → CallKey → Bool
same_call a b = a.address == b.address && same_values a.callback b.callback

-- A depth with the places on the way to it, by function and address.
pub record Bound : Type 0 where
  pub depth : ℕ
  pub path : List (String × ℕ)

pub record Edge : Type 0 where
  pub caller : String
  pub pc : ℕ
  pub callee : String
  pub target : ℕ
  pub link : ℕ

pub record StageSite : Type 0 where
  pub stage : ℕ
  pub pc : ℕ
  pub target : ℕ
  pub depth : ℕ

pub record Binding : Type 0 where
  pub pc : ℕ
  pub guards : List ℤ
  pub callbacks : List ℤ

-- A point where an analysis stops: its address, its target, the depth and the state.
pub record Stop : Type 0 where
  pub pc : ℕ
  pub target : ℕ
  pub depth : ℤ
  pub state : State

pub record Engine : Type 0 where
  pub program : Program
  pub cache : List (CallKey × Bound)
  pub active : List ℕ
  pub edges : List Edge
  pub exceptions : List (ℕ × String)
  pub frames : List (String × ℕ)
  pub dispatches : List (ℕ × List ℤ)
  pub return_values : List (CallKey × List State)
  pub visited : List ℕ
  pub call_graph : List (ℕ × ℕ)
  pub stage_sites : List StageSite
  pub accesses : List Access
  pub bindings : List Binding
  pub last_stops : List Stop

unfoldable pub cached : {A : Type 0} → CallKey → List (CallKey × A) → Option A
cached key [] = none
cached key ((k, a) ∷ rest) =
    let later = cached key rest in if same_call k key then some a else later

-- The arguments of `analyze` behind the seed.
pub record Options : Type 0 where
  pub stop_calls : List ℕ
  pub skip_calls : Bool
  pub inline_calls : Bool
  pub summaries : List ℕ
  pub stop_pcs : List ℕ
  pub stages : List ℕ

abbrev pub plain : Options
plain = record {
  stop_calls = [];
  skip_calls = false;
  inline_calls = false;
  summaries = [];
  stop_pcs = [];
  stages = [];
}

-- What an analysis gathers on its way.
pub record Run : Type 0 where
  pub engine : Engine
  pub maximum : Bound
  pub returned : ℕ
  pub stops : List Stop
  pub local_max : ℕ
  pub return_states : List State

-- What stands fixed in an analysis; `callee` is `self.analyze(target, cb)`.
pub record Frame : Type 0 where
  pub options : Options
  pub initial_sp : Values
  pub initial_regs : List Values
  pub callee : Engine → ℕ → Values → Outcome (Engine × Bound)

-- An instruction that is being followed.
pub record Turn : Type 0 where
  pub run : Run
  pub regs : List Values
  pub memory : Memory
  pub phase : ℕ
  pub targets : List ℕ

-- `next(iter(sp))` of a set of one value.
abbrev pub single : Values → Option ℤ
single (some (v ∷ [])) = some v
single _ = none

-- `STACK - sp`, between 0 and a megabyte.
unfoldable pub depth_of : ℤ → Outcome ℕ
depth_of (pos sp) =
    if leb sp stack_top && leb (stack_top - sp) (2 ^ 20)
    then ok (stack_top - sp)
    else raised (rejected "invalid/unbounded stack at %s")
depth_of (negsuc n) = raised (rejected "invalid/unbounded stack at %s")

abbrev pub raise_bound : ℕ → List (String × ℕ) → Bound → Bound
raise_bound depth path bound =
    if ltb bound.depth depth then record { depth = depth; path = path } else bound
