-- ===== src/Interval/Trial.antt =====
-- An analysis of a function of three instructions, which takes sixteen bytes of stack and returns.
use axoloty_embedded.Prelude.{
  ℕ, ◌≡◌, ◌≤◌, refl, Bool, false, true, String, Option, none, some, List, [], ◌∷◌, All, arith,
}
use axoloty_embedded.Outcome.{Outcome, ok, raised, recursion_error}
use axoloty_embedded.Stack.Instruction.{Instruction, Function}
use axoloty_embedded.Stack.Linked.{Encoded, Executable}
use axoloty_embedded.Interval.{State, Values}
use axoloty_embedded.Interval.Program.{Program}
use axoloty_embedded.Interval.Engine.{Engine, Run, Frame, plain}
use axoloty_embedded.Interval.Call.Rises.{found_depth}
use axoloty_embedded.Interval.Visit.{visit}
use axoloty_embedded.Interval.Visit.Rises.{HasDepth}
use axoloty_embedded.Interval.Worklist.{Location, location, Search, find}
use axoloty_embedded.Interval.Worklist.Grows.{Covered}
use axoloty_embedded.Interval.Analyze.{run_states, entry_registers, frame_of, fresh_run}
use axoloty_embedded.Interval.Analyze.Reached.{run_states-IsClosed, run_states-depth}
use axoloty_embedded.Interval.Worklist.Closed.{Ran}

abbrev ins : ℕ → String → String → Instruction
ins address mnemonic operands = record {
  address = address;
  mnemonic = mnemonic;
  operands = operands;
  target = none;
  size = 4;
}

abbrev body : List Instruction
body = ins 0 "addi" "x2,x2,-16" ∷ ins 4 "addi" "x2,x2,16" ∷ ins 8 "jalr" "x0,0(x1)" ∷ []

abbrev encoded : Instruction → Encoded
encoded i = record { ins = i; encoding = some (1 ∷ 1 ∷ 1 ∷ 1 ∷ []) }

abbrev leaf : Function
leaf = record { name = "leaf"; start = 0; size = 12; instructions = body }

abbrev image : Program
image = record {
  functions = (0, leaf) ∷ [];
  owners = [];
  validated = 0 ∷ [];
  instructions =
      encoded (ins 0 "addi" "x2,x2,-16")
      ∷ encoded (ins 4 "addi" "x2,x2,16")
      ∷ encoded (ins 8 "jalr" "x0,0(x1)")
      ∷ [];
  executable = record { first = 0; last = 12; contents = λ n. 1 } ∷ [];
  sections = [];
  rom_memcpy = 1000;
  validate = λ fn. ok tt;
}

abbrev engine : Engine
engine = record {
  program = image;
  cache = [];
  active = [];
  edges = [];
  exceptions = [];
  frames = [];
  dispatches = [];
  return_values = [];
  visited = [];
  call_graph = [];
  stage_sites = [];
  accesses = [];
  bindings = [];
  last_stops = [];
}

abbrev frame : Frame
unfolding entry_registers
frame = frame_of plain (λ e target callback. raised recursion_error) entry_registers

abbrev nothing : Search
nothing = record { states = []; work = [] }

abbrev result : Outcome (Run × Search) → Run × Search
result (raised e) = (fresh_run engine, nothing)
result (ok ended) = ended

ended : Run × Search
unfolding entry_registers run_states
ended = result (run_states frame engine 0 entry_registers [])

ended_run : run_states frame engine 0 entry_registers [] ≡ ok (ended.0, ended.1)
unfolding axoloty_embedded.Prelude.insert_by axoloty_embedded.Prelude.sort_by
    axoloty_embedded.Prelude.Text.codes_eq axoloty_embedded.Prelude.Text.after_prefix
    axoloty_embedded.Prelude.Text.starts_with axoloty_embedded.Prelude.Text.ends_with
    axoloty_embedded.Prelude.Text.contains_text axoloty_embedded.Prelude.Text.split_once
    axoloty_embedded.Prelude.Text.split_on axoloty_embedded.Prelude.Text.is_space
    axoloty_embedded.Prelude.Text.strip_left axoloty_embedded.Prelude.Text.strip
    axoloty_embedded.Prelude.Text.lower axoloty_embedded.Prelude.Text.is_line_break
    axoloty_embedded.Prelude.Text.split_breaks axoloty_embedded.Prelude.Text.splitlines
    axoloty_embedded.Prelude.Text.is_hex_digit axoloty_embedded.Prelude.Text.is_hex
    axoloty_embedded.Prelude.Int.◌+ℤ◌ axoloty_embedded.Prelude.Int.◌-ℤ◌
    axoloty_embedded.Stack.Operands.reg axoloty_embedded.Stack.Operands.is_reg
    axoloty_embedded.Stack.Operands.operand_parts axoloty_embedded.Stack.Operands.parse_int
    axoloty_embedded.Stack.Operands.stack_step axoloty_embedded.Stack.Linked.bytes_match
    axoloty_embedded.Stack.Linked.check_listing axoloty_embedded.Stack.Linked.tiles
    axoloty_embedded.Stack.Linked.check_function axoloty_embedded.Interval.add_value
    axoloty_embedded.Interval.join_sets axoloty_embedded.Interval.bounded
    axoloty_embedded.Interval.union axoloty_embedded.Interval.results_for
    axoloty_embedded.Interval.results axoloty_embedded.Interval.arithmetic
    axoloty_embedded.Interval.recall axoloty_embedded.Interval.join_registers
    axoloty_embedded.Interval.join_memory axoloty_embedded.Interval.same_values
    axoloty_embedded.Interval.merge axoloty_embedded.Interval.Branch.register
    axoloty_embedded.Interval.Branch.operands axoloty_embedded.Interval.Branch.operand
    axoloty_embedded.Interval.Branch.register_operand axoloty_embedded.Interval.Branch.up_to
    axoloty_embedded.Interval.Branch.refine_zero axoloty_embedded.Interval.Branch.refine_pair
    axoloty_embedded.Interval.Branch.refine axoloty_embedded.Interval.Integers.int_and
    axoloty_embedded.Interval.Integers.int_or axoloty_embedded.Interval.Integers.int_xor
    axoloty_embedded.Interval.Integers.shift_left axoloty_embedded.Interval.Integers.shift_right
    axoloty_embedded.Interval.Alu.integer axoloty_embedded.Interval.Alu.binary_operands
    axoloty_embedded.Interval.Alu.binary axoloty_embedded.Interval.Alu.shift
    axoloty_embedded.Interval.Alu.submasks axoloty_embedded.Interval.Alu.masked
    axoloty_embedded.Interval.Alu.mask_step axoloty_embedded.Interval.Offset.offset_match
    axoloty_embedded.Interval.Access.little axoloty_embedded.Interval.Access.read
    axoloty_embedded.Interval.Access.addresses_of axoloty_embedded.Interval.Access.fetched_any
    axoloty_embedded.Interval.Access.extend_all axoloty_embedded.Interval.Access.load
    axoloty_embedded.Interval.Access.forget axoloty_embedded.Interval.Access.store
    axoloty_embedded.Interval.Transfer.kind_of axoloty_embedded.Interval.Transfer.step_kind
    axoloty_embedded.Interval.Transfer.data_step axoloty_embedded.Interval.Program.at_address
    axoloty_embedded.Interval.Program.encoded_at axoloty_embedded.Interval.Program.gap_cursor
    axoloty_embedded.Interval.Program.gap_function axoloty_embedded.Interval.Program.helper_function
    axoloty_embedded.Interval.Program.uncontained axoloty_embedded.Interval.Program.admit
    axoloty_embedded.Interval.Program.contained axoloty_embedded.Interval.Program.function
    axoloty_embedded.Interval.Engine.cached axoloty_embedded.Interval.Engine.depth_of
    axoloty_embedded.Interval.Jump.jump_parts axoloty_embedded.Interval.Jump.check_saved
    axoloty_embedded.Interval.Jump.return_from axoloty_embedded.Interval.Jump.copied
    axoloty_embedded.Interval.Jump.uncovered axoloty_embedded.Interval.Jump.private_facts
    axoloty_embedded.Interval.Jump.copy_facts axoloty_embedded.Interval.Jump.clobber
    axoloty_embedded.Interval.Jump.export axoloty_embedded.Interval.Call.stage_index
    axoloty_embedded.Interval.Call.advance_stage axoloty_embedded.Interval.Call.callee_bound
    axoloty_embedded.Interval.Call.returned_turn axoloty_embedded.Interval.Call.call
    axoloty_embedded.Interval.Call.arrive axoloty_embedded.Interval.Call.transfer
    axoloty_embedded.Interval.Call.transfer_all axoloty_embedded.Interval.Call.follow_others
    axoloty_embedded.Interval.Call.destinations axoloty_embedded.Interval.Call.jump
    axoloty_embedded.Interval.Visit.instruction_turn
    axoloty_embedded.Interval.Visit.successor_states axoloty_embedded.Interval.Visit.stop_visit
    axoloty_embedded.Interval.Visit.instruction_visit axoloty_embedded.Interval.Visit.visit
    axoloty_embedded.Interval.Worklist.location axoloty_embedded.Interval.Worklist.same_location
    axoloty_embedded.Interval.Worklist.find axoloty_embedded.Interval.Worklist.put
    axoloty_embedded.Interval.Worklist.same_registers
    axoloty_embedded.Interval.Worklist.facts_within axoloty_embedded.Interval.Worklist.same_state
    axoloty_embedded.Interval.Worklist.push axoloty_embedded.Interval.Worklist.push_all
    axoloty_embedded.Interval.Worklist.visit_next axoloty_embedded.Interval.Worklist.walk
    axoloty_embedded.Interval.Analyze.set_saved axoloty_embedded.Interval.Analyze.unknown_registers
    axoloty_embedded.Interval.Analyze.entry_registers axoloty_embedded.Interval.Analyze.finish
    axoloty_embedded.Interval.Analyze.run_states axoloty_embedded.Interval.Analyze.analyze_afresh
    axoloty_embedded.Interval.Analyze.analyze ended
ended_run = refl

depth_run : found_depth ended.0 ≡ 16
unfolding axoloty_embedded.Prelude.insert_by axoloty_embedded.Prelude.sort_by
    axoloty_embedded.Prelude.Text.codes_eq axoloty_embedded.Prelude.Text.after_prefix
    axoloty_embedded.Prelude.Text.starts_with axoloty_embedded.Prelude.Text.ends_with
    axoloty_embedded.Prelude.Text.contains_text axoloty_embedded.Prelude.Text.split_once
    axoloty_embedded.Prelude.Text.split_on axoloty_embedded.Prelude.Text.is_space
    axoloty_embedded.Prelude.Text.strip_left axoloty_embedded.Prelude.Text.strip
    axoloty_embedded.Prelude.Text.lower axoloty_embedded.Prelude.Text.is_line_break
    axoloty_embedded.Prelude.Text.split_breaks axoloty_embedded.Prelude.Text.splitlines
    axoloty_embedded.Prelude.Text.is_hex_digit axoloty_embedded.Prelude.Text.is_hex
    axoloty_embedded.Prelude.Int.◌+ℤ◌ axoloty_embedded.Prelude.Int.◌-ℤ◌
    axoloty_embedded.Stack.Operands.reg axoloty_embedded.Stack.Operands.is_reg
    axoloty_embedded.Stack.Operands.operand_parts axoloty_embedded.Stack.Operands.parse_int
    axoloty_embedded.Stack.Operands.stack_step axoloty_embedded.Stack.Linked.bytes_match
    axoloty_embedded.Stack.Linked.check_listing axoloty_embedded.Stack.Linked.tiles
    axoloty_embedded.Stack.Linked.check_function axoloty_embedded.Interval.add_value
    axoloty_embedded.Interval.join_sets axoloty_embedded.Interval.bounded
    axoloty_embedded.Interval.union axoloty_embedded.Interval.results_for
    axoloty_embedded.Interval.results axoloty_embedded.Interval.arithmetic
    axoloty_embedded.Interval.recall axoloty_embedded.Interval.join_registers
    axoloty_embedded.Interval.join_memory axoloty_embedded.Interval.same_values
    axoloty_embedded.Interval.merge axoloty_embedded.Interval.Branch.register
    axoloty_embedded.Interval.Branch.operands axoloty_embedded.Interval.Branch.operand
    axoloty_embedded.Interval.Branch.register_operand axoloty_embedded.Interval.Branch.up_to
    axoloty_embedded.Interval.Branch.refine_zero axoloty_embedded.Interval.Branch.refine_pair
    axoloty_embedded.Interval.Branch.refine axoloty_embedded.Interval.Integers.int_and
    axoloty_embedded.Interval.Integers.int_or axoloty_embedded.Interval.Integers.int_xor
    axoloty_embedded.Interval.Integers.shift_left axoloty_embedded.Interval.Integers.shift_right
    axoloty_embedded.Interval.Alu.integer axoloty_embedded.Interval.Alu.binary_operands
    axoloty_embedded.Interval.Alu.binary axoloty_embedded.Interval.Alu.shift
    axoloty_embedded.Interval.Alu.submasks axoloty_embedded.Interval.Alu.masked
    axoloty_embedded.Interval.Alu.mask_step axoloty_embedded.Interval.Offset.offset_match
    axoloty_embedded.Interval.Access.little axoloty_embedded.Interval.Access.read
    axoloty_embedded.Interval.Access.addresses_of axoloty_embedded.Interval.Access.fetched_any
    axoloty_embedded.Interval.Access.extend_all axoloty_embedded.Interval.Access.load
    axoloty_embedded.Interval.Access.forget axoloty_embedded.Interval.Access.store
    axoloty_embedded.Interval.Transfer.kind_of axoloty_embedded.Interval.Transfer.step_kind
    axoloty_embedded.Interval.Transfer.data_step axoloty_embedded.Interval.Program.at_address
    axoloty_embedded.Interval.Program.encoded_at axoloty_embedded.Interval.Program.gap_cursor
    axoloty_embedded.Interval.Program.gap_function axoloty_embedded.Interval.Program.helper_function
    axoloty_embedded.Interval.Program.uncontained axoloty_embedded.Interval.Program.admit
    axoloty_embedded.Interval.Program.contained axoloty_embedded.Interval.Program.function
    axoloty_embedded.Interval.Engine.cached axoloty_embedded.Interval.Engine.depth_of
    axoloty_embedded.Interval.Jump.jump_parts axoloty_embedded.Interval.Jump.check_saved
    axoloty_embedded.Interval.Jump.return_from axoloty_embedded.Interval.Jump.copied
    axoloty_embedded.Interval.Jump.uncovered axoloty_embedded.Interval.Jump.private_facts
    axoloty_embedded.Interval.Jump.copy_facts axoloty_embedded.Interval.Jump.clobber
    axoloty_embedded.Interval.Jump.export axoloty_embedded.Interval.Call.stage_index
    axoloty_embedded.Interval.Call.advance_stage axoloty_embedded.Interval.Call.callee_bound
    axoloty_embedded.Interval.Call.returned_turn axoloty_embedded.Interval.Call.call
    axoloty_embedded.Interval.Call.arrive axoloty_embedded.Interval.Call.transfer
    axoloty_embedded.Interval.Call.transfer_all axoloty_embedded.Interval.Call.follow_others
    axoloty_embedded.Interval.Call.destinations axoloty_embedded.Interval.Call.jump
    axoloty_embedded.Interval.Visit.instruction_turn
    axoloty_embedded.Interval.Visit.successor_states axoloty_embedded.Interval.Visit.stop_visit
    axoloty_embedded.Interval.Visit.instruction_visit axoloty_embedded.Interval.Visit.visit
    axoloty_embedded.Interval.Worklist.location axoloty_embedded.Interval.Worklist.same_location
    axoloty_embedded.Interval.Worklist.find axoloty_embedded.Interval.Worklist.put
    axoloty_embedded.Interval.Worklist.same_registers
    axoloty_embedded.Interval.Worklist.facts_within axoloty_embedded.Interval.Worklist.same_state
    axoloty_embedded.Interval.Worklist.push axoloty_embedded.Interval.Worklist.push_all
    axoloty_embedded.Interval.Worklist.visit_next axoloty_embedded.Interval.Worklist.walk
    axoloty_embedded.Interval.Analyze.set_saved axoloty_embedded.Interval.Analyze.unknown_registers
    axoloty_embedded.Interval.Analyze.entry_registers axoloty_embedded.Interval.Analyze.finish
    axoloty_embedded.Interval.Analyze.run_states axoloty_embedded.Interval.Analyze.analyze_afresh
    axoloty_embedded.Interval.Analyze.analyze ended
depth_run = refl

abbrev entry_state : State
unfolding entry_registers
entry_state = record { regs = entry_registers; memory = []; phase = 0 }

abbrev entry : Location
unfolding entry_registers location
entry = location 0 entry_registers 0

found_run : find entry ended.1.states ≡ some entry_state
unfolding axoloty_embedded.Prelude.insert_by axoloty_embedded.Prelude.sort_by
    axoloty_embedded.Prelude.Text.codes_eq axoloty_embedded.Prelude.Text.after_prefix
    axoloty_embedded.Prelude.Text.starts_with axoloty_embedded.Prelude.Text.ends_with
    axoloty_embedded.Prelude.Text.contains_text axoloty_embedded.Prelude.Text.split_once
    axoloty_embedded.Prelude.Text.split_on axoloty_embedded.Prelude.Text.is_space
    axoloty_embedded.Prelude.Text.strip_left axoloty_embedded.Prelude.Text.strip
    axoloty_embedded.Prelude.Text.lower axoloty_embedded.Prelude.Text.is_line_break
    axoloty_embedded.Prelude.Text.split_breaks axoloty_embedded.Prelude.Text.splitlines
    axoloty_embedded.Prelude.Text.is_hex_digit axoloty_embedded.Prelude.Text.is_hex
    axoloty_embedded.Prelude.Int.◌+ℤ◌ axoloty_embedded.Prelude.Int.◌-ℤ◌
    axoloty_embedded.Stack.Operands.reg axoloty_embedded.Stack.Operands.is_reg
    axoloty_embedded.Stack.Operands.operand_parts axoloty_embedded.Stack.Operands.parse_int
    axoloty_embedded.Stack.Operands.stack_step axoloty_embedded.Stack.Linked.bytes_match
    axoloty_embedded.Stack.Linked.check_listing axoloty_embedded.Stack.Linked.tiles
    axoloty_embedded.Stack.Linked.check_function axoloty_embedded.Interval.add_value
    axoloty_embedded.Interval.join_sets axoloty_embedded.Interval.bounded
    axoloty_embedded.Interval.union axoloty_embedded.Interval.results_for
    axoloty_embedded.Interval.results axoloty_embedded.Interval.arithmetic
    axoloty_embedded.Interval.recall axoloty_embedded.Interval.join_registers
    axoloty_embedded.Interval.join_memory axoloty_embedded.Interval.same_values
    axoloty_embedded.Interval.merge axoloty_embedded.Interval.Branch.register
    axoloty_embedded.Interval.Branch.operands axoloty_embedded.Interval.Branch.operand
    axoloty_embedded.Interval.Branch.register_operand axoloty_embedded.Interval.Branch.up_to
    axoloty_embedded.Interval.Branch.refine_zero axoloty_embedded.Interval.Branch.refine_pair
    axoloty_embedded.Interval.Branch.refine axoloty_embedded.Interval.Integers.int_and
    axoloty_embedded.Interval.Integers.int_or axoloty_embedded.Interval.Integers.int_xor
    axoloty_embedded.Interval.Integers.shift_left axoloty_embedded.Interval.Integers.shift_right
    axoloty_embedded.Interval.Alu.integer axoloty_embedded.Interval.Alu.binary_operands
    axoloty_embedded.Interval.Alu.binary axoloty_embedded.Interval.Alu.shift
    axoloty_embedded.Interval.Alu.submasks axoloty_embedded.Interval.Alu.masked
    axoloty_embedded.Interval.Alu.mask_step axoloty_embedded.Interval.Offset.offset_match
    axoloty_embedded.Interval.Access.little axoloty_embedded.Interval.Access.read
    axoloty_embedded.Interval.Access.addresses_of axoloty_embedded.Interval.Access.fetched_any
    axoloty_embedded.Interval.Access.extend_all axoloty_embedded.Interval.Access.load
    axoloty_embedded.Interval.Access.forget axoloty_embedded.Interval.Access.store
    axoloty_embedded.Interval.Transfer.kind_of axoloty_embedded.Interval.Transfer.step_kind
    axoloty_embedded.Interval.Transfer.data_step axoloty_embedded.Interval.Program.at_address
    axoloty_embedded.Interval.Program.encoded_at axoloty_embedded.Interval.Program.gap_cursor
    axoloty_embedded.Interval.Program.gap_function axoloty_embedded.Interval.Program.helper_function
    axoloty_embedded.Interval.Program.uncontained axoloty_embedded.Interval.Program.admit
    axoloty_embedded.Interval.Program.contained axoloty_embedded.Interval.Program.function
    axoloty_embedded.Interval.Engine.cached axoloty_embedded.Interval.Engine.depth_of
    axoloty_embedded.Interval.Jump.jump_parts axoloty_embedded.Interval.Jump.check_saved
    axoloty_embedded.Interval.Jump.return_from axoloty_embedded.Interval.Jump.copied
    axoloty_embedded.Interval.Jump.uncovered axoloty_embedded.Interval.Jump.private_facts
    axoloty_embedded.Interval.Jump.copy_facts axoloty_embedded.Interval.Jump.clobber
    axoloty_embedded.Interval.Jump.export axoloty_embedded.Interval.Call.stage_index
    axoloty_embedded.Interval.Call.advance_stage axoloty_embedded.Interval.Call.callee_bound
    axoloty_embedded.Interval.Call.returned_turn axoloty_embedded.Interval.Call.call
    axoloty_embedded.Interval.Call.arrive axoloty_embedded.Interval.Call.transfer
    axoloty_embedded.Interval.Call.transfer_all axoloty_embedded.Interval.Call.follow_others
    axoloty_embedded.Interval.Call.destinations axoloty_embedded.Interval.Call.jump
    axoloty_embedded.Interval.Visit.instruction_turn
    axoloty_embedded.Interval.Visit.successor_states axoloty_embedded.Interval.Visit.stop_visit
    axoloty_embedded.Interval.Visit.instruction_visit axoloty_embedded.Interval.Visit.visit
    axoloty_embedded.Interval.Worklist.location axoloty_embedded.Interval.Worklist.same_location
    axoloty_embedded.Interval.Worklist.find axoloty_embedded.Interval.Worklist.put
    axoloty_embedded.Interval.Worklist.same_registers
    axoloty_embedded.Interval.Worklist.facts_within axoloty_embedded.Interval.Worklist.same_state
    axoloty_embedded.Interval.Worklist.push axoloty_embedded.Interval.Worklist.push_all
    axoloty_embedded.Interval.Worklist.visit_next axoloty_embedded.Interval.Worklist.walk
    axoloty_embedded.Interval.Analyze.set_saved axoloty_embedded.Interval.Analyze.unknown_registers
    axoloty_embedded.Interval.Analyze.entry_registers axoloty_embedded.Interval.Analyze.finish
    axoloty_embedded.Interval.Analyze.run_states axoloty_embedded.Interval.Analyze.analyze_afresh
    axoloty_embedded.Interval.Analyze.analyze ended entry_state entry
found_run = refl

run_states-depth_example : (depth : ℕ) × HasDepth entry_state depth × (depth ≤ found_depth ended.0)
unfolding frame
run_states-depth_example =
    run_states-depth frame engine 0 entry_registers [] ended.0 ended.1 entry entry_state ended_run
      found_run refl

run_states-IsClosed_example :
    Covered ended.1.states (entry, entry_state)
    × ((key : Location) (state : State)
        → find key ended.1.states ≡ some state
        → (before : Run) × (after : Run) × (items : List (Location × State)) × Ran
            (visit frame)
            (fresh_run engine)
            before
          × (visit frame before key.pc state ≡ ok (after, items))
          × Ran (visit frame) after ended.0
          × All (Covered ended.1.states) items)
unfolding entry location entry_state entry_registers
run_states-IsClosed_example =
    run_states-IsClosed frame engine 0 entry_registers [] ended.0 ended.1 ended_run
