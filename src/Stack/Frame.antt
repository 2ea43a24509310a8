-- ===== src/Stack/Frame.antt =====
-- `analyze_frame` of Tools/EmbeddedApplicationMacros/first_init_stack.py: a depth-first walk over
-- the instructions of one function, with the change of sp on the way to each.
pub mod Reach
mod Rounds
mod Invariant
pub mod Sound
mod Paths
mod Measure
pub mod Total
mod Samples
use axoloty_embedded.Prelude.{
  ℕ, zero, suc, ◌+◌, ◌≡◌, refl, Bool, true, false, not, ◌&&◌, ◌||◌, String, str_eq, Option, none,
  some, List, [], ◌∷◌, ◌++◌, map, ◌==◌, ltb, if◌then◌else◌, any, length, get_elem?, ◌^◌,
}
use axoloty_embedded.Prelude.Int.{ℤ, pos, negsuc, ◌+ℤ◌, ◌-ℤ◌, ltb_ℤ, eq_ℤ}
use axoloty_embedded.Prelude.Text.{codes, codes_eq, split_once}
use axoloty_embedded.Outcome.{Outcome, ok, raised, key_error}
use axoloty_embedded.Stack.Instruction.{Instruction, Function}
use axoloty_embedded.Stack.Operands.{Text, text_in, is_reg, operand_parts, first_part, stack_step}
use axoloty_embedded.Stack.Flow.{
  Flow, refuse, member, branches, uncond_jumps, returns, register_jumps, successors,
}

-- An address with the change of sp before it.
abbrev pub Point : Type 0
Point = ℕ × ℤ

-- A message, with the address that it names; the texts and numbers that it quotes are left out.
pub record Issue : Type 0 where
  pub at : ℕ
  pub message : String

-- An entry of `work`: the point and the path to it, the latest point first.
pub record Item : Type 0 where
  pub point : Point
  pub path : List Point

-- The variables of the loop. `work` has its last entry first. `issues` is a set: its order, and
-- how often an issue stands in it, do not count.
pub record Search : Type 0 where
  pub work : List Item
  pub seen : List Point
  pub exits : ℕ
  pub min_delta : ℤ
  pub issues : List Issue

abbrev pub same_point : Point → Point → Bool
same_point (pc, d) (qc, e) = pc == qc && eq_ℤ d e

abbrev pub was_seen : Point → List Point → Bool
was_seen p points = any (same_point p) points

abbrev pub issue_if : Bool → ℕ → String → List Issue → List Issue
issue_if test pc message issues =
    if test then record { at = pc; message = message } ∷ issues else issues

-- `index_by_pc`: a later instruction of the same address replaces an earlier one.
index_from : ℕ → ℕ → List Instruction → Option ℕ
index_from i pc [] = none
index_from i pc (ins ∷ rest) = elim (index_from (suc i) pc rest) [
  | some j ↦ some j
  | none ↦ if ins.address == pc then some i else none
]

-- `instructions[index_by_pc[pc]]`, with its index.
abbrev with_index : List Instruction → Option ℕ → Option (ℕ × Instruction)
with_index instructions none = none
with_index instructions (some i) = elim (get_elem? instructions i) [
  | none ↦ none
  | some ins ↦ some (i, ins)
]

unfoldable pub fetch : Function → ℕ → Option (ℕ × Instruction)
unfolding index_from
fetch fn pc = with_index fn.instructions (index_from 0 pc fn.instructions)

unfoldable pub starts_of : Function → List ℕ
starts_of fn = map (λ ins. ins.address) fn.instructions

abbrev not_link_writes : List String
not_link_writes = "jr" ∷ "c.jr" ∷ "sw" ∷ "sh" ∷ "sb" ∷ "c.sw" ∷ "c.swsp" ∷ []

writes_ra : Instruction → Bool
unfolding is_reg operand_parts
writes_ra ins =
    let m = ins.mnemonic in
    let first = is_reg (first_part (operand_parts ins)) "ra" in
    (text_in m ("jal" ∷ "jalr" ∷ "c.jal" ∷ []) && (first || str_eq m "c.jal"))
    || (first
        && not (
            text_in m branches
            || text_in m uncond_jumps
            || text_in m returns
            || text_in m not_link_writes))

-- `reg(ins.operands.split(",", 1)[0]) == "sp"`, no write to sp by an `addi`.
writes_sp_otherwise : Instruction → Bool
unfolding is_reg split_once
writes_sp_otherwise ins =
    is_reg (split_once b',' (codes ins.operands)).0 "sp"
    && not (text_in ins.mnemonic ("addi" ∷ "c.addi" ∷ "c.addi16sp" ∷ []))

-- A jump to t0 returns only in a function that a `jal t0` calls.
unfoldable pub flow_of : Function → Bool → List ℕ → ℕ → Instruction → Flow
unfolding is_reg successors
flow_of fn linkreg_return starts index ins =
    if text_in ins.mnemonic register_jumps && is_reg (codes ins.operands) "t0" && not linkreg_return
    then refuse "unproven jr t0 continuation without a jal t0 caller"
    else successors fn index ins starts

-- `next((old_delta for old_pc, old_delta in reversed(path) if old_pc == next_pc), None)`
abbrev pub earlier_delta : ℕ → List Point → Option ℤ
earlier_delta pc [] = none
earlier_delta pc ((old_pc, old_delta) ∷ path) =
    if old_pc == pc then some old_delta else earlier_delta pc path

-- The loop over the successors.
pub push_successors : ℕ → ℤ → List Point → List ℕ → Search → Search
push_successors pc after path [] s = s
push_successors pc after path (next ∷ rest) s =
    push_successors pc after path rest (elim (earlier_delta next path) [
      | some earlier ↦ record s {
        issues =
            issue_if (not (eq_ℤ earlier after)) pc
              "stack-changing control-flow cycle returns with another delta" s.issues;
      }
      | none ↦ record s {
        work = record { point = (next, after); path = (next, after) ∷ path } ∷ s.work;
      }
    ])

abbrev has_problem : Option String → Bool
has_problem none = false
has_problem (some message) = true

abbrev problem_text : Option String → String
problem_text none = ""
problem_text (some message) = message

unfoldable pub min_ℤ : ℤ → ℤ → ℤ
min_ℤ a b = if ltb_ℤ b a then b else a

-- The part of the loop's body behind `stack_step`, which gave a number.
pub leave_point : ℕ → ℤ → List Point → Flow → Search → Search
unfolding push_successors
leave_point pc after path flow s =
    let problem = issue_if (has_problem flow.problem) pc (problem_text flow.problem) s.issues in
    push_successors pc after path flow.next (
      if flow.exit
      then record s {
        exits = s.exits + 1;
        issues =
            issue_if (not (eq_ℤ after (pos 0))) pc "return with sp delta %d, expected 0" problem;
      }
      else record s { issues = problem })

pub step_point : Function → Bool → List ℕ → Item → ℕ → Instruction → Option ℤ → Search → Search
unfolding leave_point writes_sp_otherwise flow_of min_ℤ
step_point fn linkreg_return starts item index ins none s = record s {
  issues = issue_if true item.point.0 "unsupported/dynamic write to sp" s.issues;
}
step_point fn linkreg_return starts item index ins (some change) s =
    let after = item.point.1 +ℤ change in
    let s' = record s { min_delta = min_ℤ s.min_delta after } in
    if writes_sp_otherwise ins
    then record s' {
      issues = issue_if true item.point.0 "unsupported stack-pointer write" s.issues;
    }
    else leave_point item.point.0 after item.path (flow_of fn linkreg_return starts index ins) s'

-- The loop's body for an item that was not seen before.
visit : Function → Bool → Item → Search → Option (ℕ × Instruction) → Outcome Search
unfolding step_point writes_ra stack_step starts_of
visit fn linkreg_return item s none = raised key_error
visit fn linkreg_return item s (some (index, ins)) =
    let noted = record s {
      seen = item.point ∷ s.seen;
      issues =
          issue_if (writes_ra ins) item.point.0
            "link-register write/return convention is not proven" s.issues;
    } in
    ok (step_point fn linkreg_return (starts_of fn) item index ins (stack_step ins) noted)

-- One round of `while work`, the item taken off: `s.work` is the rest.
pub round : Function → Bool → Item → Search → Outcome Search
unfolding visit fetch
round fn linkreg_return item s =
    if was_seen item.point s.seen
    then ok s
    else visit fn linkreg_return item s (fetch fn item.point.0)

abbrev continue_with : (Search → Option (Outcome Search)) → Outcome Search → Option (Outcome Search)
continue_with loop (raised e) = some (raised e)
continue_with loop (ok s) = loop s

-- The test of `while work`, and one round before the loop goes on.
abbrev take_item :
    (Search → Option (Outcome Search))
    → Function
    → Bool
    → Search
    → List Item
    → Option (Outcome Search)
take_item loop fn linkreg_return s [] = some (ok s)
take_item loop fn linkreg_return s (item ∷ rest) =
    continue_with loop (round fn linkreg_return item (record s { work = rest }))

-- The loop, on fuel; `none` means that the fuel ran out.
explore : ℕ → Function → Bool → Search → Option (Outcome Search)
unfolding round
explore zero fn linkreg_return s = none
explore (suc fuel) fn linkreg_return s =
    take_item (explore fuel fn linkreg_return) fn linkreg_return s s.work

has_duplicate : List ℕ → Bool
has_duplicate [] = false
has_duplicate (pc ∷ rest) = member pc rest || has_duplicate rest

gap_issues : List Instruction → List Issue → List Issue
gap_issues [] issues = issues
gap_issues (left ∷ []) issues = issues
gap_issues (left ∷ right ∷ rest) issues = gap_issues (right ∷ rest) (
    issue_if (not (left.address + left.size == right.address)) left.address
      "instruction gap before 0x%x" issues)

body_issues : Function → Instruction → List Issue
unfolding has_duplicate gap_issues starts_of
body_issues fn first = gap_issues fn.instructions (
    issue_if (not (first.address == fn.start)) fn.start
      "first decoded instruction does not start at the symbol address"
      (issue_if (has_duplicate (starts_of fn)) fn.start
        "duplicate instruction address in function body" []))

pub record Frame : Type 0 where
  pub frame_bytes : Option ℤ
  pub minimum_delta : ℤ
  pub unresolved : List Issue
  pub return_paths : ℕ

report : Function → Search → Frame
report fn s = record {
  frame_bytes = if ltb_ℤ (pos 0) s.min_delta then none else some (pos 0 -ℤ s.min_delta);
  minimum_delta = s.min_delta;
  unresolved = issue_if (s.exits == 0) fn.start "no proven return path" s.issues;
  return_paths = s.exits;
}

first_search : Function → Instruction → Search
unfolding body_issues
first_search fn first =
    let entry : Point = (first.address, pos 0) in
    record {
      work = record { point = entry; path = entry ∷ [] } ∷ [];
      seen = [];
      exits = 0;
      min_delta = pos 0;
      issues = body_issues fn first;
    }

report_of : Function → Option (Outcome Search) → Option (Outcome Frame)
unfolding report
report_of fn none = none
report_of fn (some (raised e)) = some (raised e)
report_of fn (some (ok s)) = some (ok (report fn s))

-- A path visits an instruction once, and has at most two successors at each.
abbrev pub frame_fuel : Function → ℕ
frame_fuel fn = 3 ^ suc (length fn.instructions)

analyze_body : Function → Bool → List Instruction → Option (Outcome Frame)
unfolding explore first_search report_of
analyze_body fn linkreg_return [] = some (
    ok (record {
      frame_bytes = none;
      minimum_delta = pos 0;
      unresolved = record { at = fn.start; message = "missing linked body" } ∷ [];
      return_paths = 0;
    }))
analyze_body fn linkreg_return (first ∷ rest) =
    report_of fn (explore (frame_fuel fn) fn linkreg_return (first_search fn first))

pub analyze_frame : Function → Bool → Option (Outcome Frame)
unfolding analyze_body
analyze_frame fn linkreg_return = analyze_body fn linkreg_return fn.instructions
