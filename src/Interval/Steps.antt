-- ===== src/Interval/Steps.antt =====
-- Single instructions, branches, resolved functions and a search for cycles.
use axoloty_embedded.Prelude.{
  ℕ, zero, suc, ◌≡◌, ◌≢◌, ◌<◌, refl, Bool, false, true, String, Option, none, some, List, [], ◌∷◌,
  All, arith, length, In, ◌^◌, ◌-◌, if◌then◌else◌, Bool-cases, inl, inr, ◌==◌, drop, sym, ◌+◌,
}
use mathlib.Core.Path.{subst}
use axoloty_embedded.Prelude.Int.{ℤ, pos, negsuc, ◌+ℤ◌}
use axoloty_embedded.Prelude.Text.{codes}
use axoloty_embedded.Outcome.{ok}
use axoloty_embedded.Stack.Instruction.{Instruction}
use axoloty_embedded.Stack.Operands.{Text}
use axoloty_embedded.Interval.{State, Values, Place, const, operate, recall, same_place}
use axoloty_embedded.Interval.Sound.{Describes, May}
use axoloty_embedded.Interval.Registers.{known}
use axoloty_embedded.Interval.Branch.{refine_pair, refine_zero}
use axoloty_embedded.Interval.Branch.Sound.{Keeps, refine_pair-Keeps, refine_zero-Keeps}
use axoloty_embedded.Interval.Alu.{binary}
use axoloty_embedded.Interval.Access.{Memory, Site, Effect, Section, load, store, read, overlaps}
use axoloty_embedded.Interval.Access.Sound.{Recalls, write, some-eq}
use axoloty_embedded.Interval.Access.Correct.{load-Describes, store-Recalls}
use axoloty_embedded.Interval.Transfer.{data_step}
use axoloty_embedded.Interval.Transfer.Correct.{data_step-Keeps, binary-Describes}
use axoloty_embedded.Interval.Acyclic.{
  Leads, callees, check_acyclic, check_acyclic-no_cycle, acyclic, complete_all,
}
use axoloty_embedded.Interval.Access.Image.{Immutable, number_of}

abbrev branch : String → String → Instruction
branch mnemonic operands = record {
  address = 8;
  mnemonic = mnemonic;
  operands = operands;
  target = some 64;
  size = 4;
}

-- x1 is unknown, x2 is 3 or 7.
abbrev before : List Values
before = const (pos 0) ∷ none ∷ some (pos 3 ∷ pos 7 ∷ []) ∷ const (pos 5) ∷ []

abbrev machine : List ℤ
machine = pos 0 ∷ pos 99 ∷ pos 3 ∷ pos 5 ∷ []

abbrev taken_regs : List Values
taken_regs = const (pos 0) ∷ none ∷ const (pos 3) ∷ const (pos 5) ∷ []

pair_run : refine_pair (branch "bltu" "x2,x3") 64 before ≡ ok (some taken_regs)
unfolding axoloty_embedded.Prelude.Text.codes_eq axoloty_embedded.Prelude.Text.after_prefix
    axoloty_embedded.Prelude.Text.starts_with axoloty_embedded.Prelude.Text.ends_with
    axoloty_embedded.Prelude.Text.contains_text axoloty_embedded.Prelude.Text.split_once
    axoloty_embedded.Prelude.Text.split_on axoloty_embedded.Prelude.Text.is_space
    axoloty_embedded.Prelude.Text.strip_left axoloty_embedded.Prelude.Text.strip
    axoloty_embedded.Prelude.Text.lower axoloty_embedded.Prelude.Text.is_line_break
    axoloty_embedded.Prelude.Text.split_breaks axoloty_embedded.Prelude.Text.splitlines
    axoloty_embedded.Prelude.Text.is_hex_digit axoloty_embedded.Prelude.Text.is_hex
    axoloty_embedded.Prelude.Int.◌+ℤ◌ axoloty_embedded.Prelude.Int.◌-ℤ◌
    axoloty_embedded.Stack.Operands.reg axoloty_embedded.Stack.Operands.is_reg
    axoloty_embedded.Stack.Operands.operand_parts axoloty_embedded.Stack.Operands.parse_int
    axoloty_embedded.Stack.Operands.stack_step axoloty_embedded.Interval.add_value
    axoloty_embedded.Interval.join_sets axoloty_embedded.Interval.bounded
    axoloty_embedded.Interval.union axoloty_embedded.Interval.results_for
    axoloty_embedded.Interval.results axoloty_embedded.Interval.arithmetic
    axoloty_embedded.Interval.recall axoloty_embedded.Interval.join_registers
    axoloty_embedded.Interval.join_memory axoloty_embedded.Interval.same_values
    axoloty_embedded.Interval.merge axoloty_embedded.Interval.Branch.register
    axoloty_embedded.Interval.Branch.operands axoloty_embedded.Interval.Branch.operand
    axoloty_embedded.Interval.Branch.register_operand axoloty_embedded.Interval.Branch.up_to
    axoloty_embedded.Interval.Branch.refine_zero axoloty_embedded.Interval.Branch.refine_pair
    axoloty_embedded.Interval.Branch.refine axoloty_embedded.Interval.Integers.int_and
    axoloty_embedded.Interval.Integers.int_or axoloty_embedded.Interval.Integers.int_xor
    axoloty_embedded.Interval.Integers.shift_left axoloty_embedded.Interval.Integers.shift_right
    axoloty_embedded.Interval.Alu.integer axoloty_embedded.Interval.Alu.binary_operands
    axoloty_embedded.Interval.Alu.binary axoloty_embedded.Interval.Alu.shift
    axoloty_embedded.Interval.Alu.submasks axoloty_embedded.Interval.Alu.masked
    axoloty_embedded.Interval.Alu.mask_step axoloty_embedded.Interval.Offset.offset_match
    axoloty_embedded.Interval.Access.little axoloty_embedded.Interval.Access.read
    axoloty_embedded.Interval.Access.addresses_of axoloty_embedded.Interval.Access.fetched_any
    axoloty_embedded.Interval.Access.extend_all axoloty_embedded.Interval.Access.load
    axoloty_embedded.Interval.Access.forget axoloty_embedded.Interval.Access.store
    axoloty_embedded.Interval.Transfer.kind_of axoloty_embedded.Interval.Transfer.step_kind
    axoloty_embedded.Interval.Transfer.data_step
pair_run = refl

abbrev nonzero_regs : List Values
nonzero_regs = const (pos 0) ∷ none ∷ some (pos 3 ∷ pos 7 ∷ []) ∷ const (pos 5) ∷ []

zero_run : refine_zero (branch "c.bnez" "x2") 64 before ≡ ok (some nonzero_regs)
unfolding axoloty_embedded.Prelude.Text.codes_eq axoloty_embedded.Prelude.Text.after_prefix
    axoloty_embedded.Prelude.Text.starts_with axoloty_embedded.Prelude.Text.ends_with
    axoloty_embedded.Prelude.Text.contains_text axoloty_embedded.Prelude.Text.split_once
    axoloty_embedded.Prelude.Text.split_on axoloty_embedded.Prelude.Text.is_space
    axoloty_embedded.Prelude.Text.strip_left axoloty_embedded.Prelude.Text.strip
    axoloty_embedded.Prelude.Text.lower axoloty_embedded.Prelude.Text.is_line_break
    axoloty_embedded.Prelude.Text.split_breaks axoloty_embedded.Prelude.Text.splitlines
    axoloty_embedded.Prelude.Text.is_hex_digit axoloty_embedded.Prelude.Text.is_hex
    axoloty_embedded.Prelude.Int.◌+ℤ◌ axoloty_embedded.Prelude.Int.◌-ℤ◌
    axoloty_embedded.Stack.Operands.reg axoloty_embedded.Stack.Operands.is_reg
    axoloty_embedded.Stack.Operands.operand_parts axoloty_embedded.Stack.Operands.parse_int
    axoloty_embedded.Stack.Operands.stack_step axoloty_embedded.Interval.add_value
    axoloty_embedded.Interval.join_sets axoloty_embedded.Interval.bounded
    axoloty_embedded.Interval.union axoloty_embedded.Interval.results_for
    axoloty_embedded.Interval.results axoloty_embedded.Interval.arithmetic
    axoloty_embedded.Interval.recall axoloty_embedded.Interval.join_registers
    axoloty_embedded.Interval.join_memory axoloty_embedded.Interval.same_values
    axoloty_embedded.Interval.merge axoloty_embedded.Interval.Branch.register
    axoloty_embedded.Interval.Branch.operands axoloty_embedded.Interval.Branch.operand
    axoloty_embedded.Interval.Branch.register_operand axoloty_embedded.Interval.Branch.up_to
    axoloty_embedded.Interval.Branch.refine_zero axoloty_embedded.Interval.Branch.refine_pair
    axoloty_embedded.Interval.Branch.refine axoloty_embedded.Interval.Integers.int_and
    axoloty_embedded.Interval.Integers.int_or axoloty_embedded.Interval.Integers.int_xor
    axoloty_embedded.Interval.Integers.shift_left axoloty_embedded.Interval.Integers.shift_right
    axoloty_embedded.Interval.Alu.integer axoloty_embedded.Interval.Alu.binary_operands
    axoloty_embedded.Interval.Alu.binary axoloty_embedded.Interval.Alu.shift
    axoloty_embedded.Interval.Alu.submasks axoloty_embedded.Interval.Alu.masked
    axoloty_embedded.Interval.Alu.mask_step axoloty_embedded.Interval.Offset.offset_match
    axoloty_embedded.Interval.Access.little axoloty_embedded.Interval.Access.read
    axoloty_embedded.Interval.Access.addresses_of axoloty_embedded.Interval.Access.fetched_any
    axoloty_embedded.Interval.Access.extend_all axoloty_embedded.Interval.Access.load
    axoloty_embedded.Interval.Access.forget axoloty_embedded.Interval.Access.store
    axoloty_embedded.Interval.Transfer.kind_of axoloty_embedded.Interval.Transfer.step_kind
    axoloty_embedded.Interval.Transfer.data_step
zero_run = refl

refine_pair-Keeps_example : Keeps (some taken_regs) machine
unfolding axoloty_embedded.Interval.Branch.register_operand axoloty_embedded.Interval.Branch.operand
    axoloty_embedded.Interval.Branch.operands axoloty_embedded.Interval.Branch.register
refine_pair-Keeps_example =
    refine_pair-Keeps (branch "bltu" "x2,x3") 64 before (some taken_regs) machine 2 3 3 5 pair_run
      refl refl (refl, (tt, (refl, (refl, tt)))) refl refl (omega arith) (omega arith) refl

refine_zero-Keeps_example : Keeps (some nonzero_regs) machine
unfolding axoloty_embedded.Interval.Branch.register_operand axoloty_embedded.Interval.Branch.operand
    axoloty_embedded.Interval.Branch.operands axoloty_embedded.Interval.Branch.register
refine_zero-Keeps_example =
    refine_zero-Keeps (branch "c.bnez" "x2") 64 before (some nonzero_regs) machine 2 3 zero_run refl
      (refl, (tt, (refl, (refl, tt)))) refl refl

abbrev add_operands : List Text
add_operands = codes "x1" ∷ codes "x3" ∷ codes "-2" ∷ []

abbrev added : List Values
added = const (pos 0) ∷ const (pos 3) ∷ some (pos 3 ∷ pos 7 ∷ []) ∷ const (pos 5) ∷ []

binary_run : binary ◌+ℤ◌ true false add_operands before ≡ ok added
unfolding axoloty_embedded.Prelude.Text.codes_eq axoloty_embedded.Prelude.Text.after_prefix
    axoloty_embedded.Prelude.Text.starts_with axoloty_embedded.Prelude.Text.ends_with
    axoloty_embedded.Prelude.Text.contains_text axoloty_embedded.Prelude.Text.split_once
    axoloty_embedded.Prelude.Text.split_on axoloty_embedded.Prelude.Text.is_space
    axoloty_embedded.Prelude.Text.strip_left axoloty_embedded.Prelude.Text.strip
    axoloty_embedded.Prelude.Text.lower axoloty_embedded.Prelude.Text.is_line_break
    axoloty_embedded.Prelude.Text.split_breaks axoloty_embedded.Prelude.Text.splitlines
    axoloty_embedded.Prelude.Text.is_hex_digit axoloty_embedded.Prelude.Text.is_hex
    axoloty_embedded.Prelude.Int.◌+ℤ◌ axoloty_embedded.Prelude.Int.◌-ℤ◌
    axoloty_embedded.Stack.Operands.reg axoloty_embedded.Stack.Operands.is_reg
    axoloty_embedded.Stack.Operands.operand_parts axoloty_embedded.Stack.Operands.parse_int
    axoloty_embedded.Stack.Operands.stack_step axoloty_embedded.Interval.add_value
    axoloty_embedded.Interval.join_sets axoloty_embedded.Interval.bounded
    axoloty_embedded.Interval.union axoloty_embedded.Interval.results_for
    axoloty_embedded.Interval.results axoloty_embedded.Interval.arithmetic
    axoloty_embedded.Interval.recall axoloty_embedded.Interval.join_registers
    axoloty_embedded.Interval.join_memory axoloty_embedded.Interval.same_values
    axoloty_embedded.Interval.merge axoloty_embedded.Interval.Branch.register
    axoloty_embedded.Interval.Branch.operands axoloty_embedded.Interval.Branch.operand
    axoloty_embedded.Interval.Branch.register_operand axoloty_embedded.Interval.Branch.up_to
    axoloty_embedded.Interval.Branch.refine_zero axoloty_embedded.Interval.Branch.refine_pair
    axoloty_embedded.Interval.Branch.refine axoloty_embedded.Interval.Integers.int_and
    axoloty_embedded.Interval.Integers.int_or axoloty_embedded.Interval.Integers.int_xor
    axoloty_embedded.Interval.Integers.shift_left axoloty_embedded.Interval.Integers.shift_right
    axoloty_embedded.Interval.Alu.integer axoloty_embedded.Interval.Alu.binary_operands
    axoloty_embedded.Interval.Alu.binary axoloty_embedded.Interval.Alu.shift
    axoloty_embedded.Interval.Alu.submasks axoloty_embedded.Interval.Alu.masked
    axoloty_embedded.Interval.Alu.mask_step axoloty_embedded.Interval.Offset.offset_match
    axoloty_embedded.Interval.Access.little axoloty_embedded.Interval.Access.read
    axoloty_embedded.Interval.Access.addresses_of axoloty_embedded.Interval.Access.fetched_any
    axoloty_embedded.Interval.Access.extend_all axoloty_embedded.Interval.Access.load
    axoloty_embedded.Interval.Access.forget axoloty_embedded.Interval.Access.store
    axoloty_embedded.Interval.Transfer.kind_of axoloty_embedded.Interval.Transfer.step_kind
    axoloty_embedded.Interval.Transfer.data_step
binary_run = refl

binary-Describes_example : Describes added (write 1 (operate ◌+ℤ◌ (pos 5) (negsuc 1)) machine)
unfolding axoloty_embedded.Interval.Branch.register_operand axoloty_embedded.Interval.Branch.operand
    axoloty_embedded.Interval.Branch.register axoloty_embedded.Interval.Alu.integer
    axoloty_embedded.Stack.Operands.parse_int
binary-Describes_example =
    binary-Describes ◌+ℤ◌ true false add_operands before added machine 1 3 (negsuc 1) binary_run
      refl refl refl (refl, (tt, (refl, (refl, tt))))

-- A slot of the stack that holds 9, and sp below it.
abbrev slot : Place
slot = (pos (2 ^ 48 - 16), 4)

abbrev facts : Memory
facts = (slot, const (pos 9)) ∷ []

abbrev stack_regs : List Values
stack_regs = const (pos 0) ∷ none ∷ const (pos (2 ^ 48 - 32)) ∷ const (pos 5) ∷ []

abbrev site : String → Site
site mnemonic = record { sections = []; pc = 8; mnemonic = mnemonic; sp = pos (2 ^ 48 - 32) }

abbrev slot_operands : List Text
slot_operands = codes "x3" ∷ codes "16(x2)" ∷ []

abbrev loaded_effect : Effect
loaded_effect = record {
  regs = const (pos 0) ∷ none ∷ const (pos (2 ^ 48 - 32)) ∷ const (pos 9) ∷ [];
  memory = facts;
  accesses = [];
}

load_run : load (site "lw") 4 slot_operands stack_regs facts ≡ ok loaded_effect
unfolding axoloty_embedded.Prelude.Text.codes_eq axoloty_embedded.Prelude.Text.after_prefix
    axoloty_embedded.Prelude.Text.starts_with axoloty_embedded.Prelude.Text.ends_with
    axoloty_embedded.Prelude.Text.contains_text axoloty_embedded.Prelude.Text.split_once
    axoloty_embedded.Prelude.Text.split_on axoloty_embedded.Prelude.Text.is_space
    axoloty_embedded.Prelude.Text.strip_left axoloty_embedded.Prelude.Text.strip
    axoloty_embedded.Prelude.Text.lower axoloty_embedded.Prelude.Text.is_line_break
    axoloty_embedded.Prelude.Text.split_breaks axoloty_embedded.Prelude.Text.splitlines
    axoloty_embedded.Prelude.Text.is_hex_digit axoloty_embedded.Prelude.Text.is_hex
    axoloty_embedded.Prelude.Int.◌+ℤ◌ axoloty_embedded.Prelude.Int.◌-ℤ◌
    axoloty_embedded.Stack.Operands.reg axoloty_embedded.Stack.Operands.is_reg
    axoloty_embedded.Stack.Operands.operand_parts axoloty_embedded.Stack.Operands.parse_int
    axoloty_embedded.Stack.Operands.stack_step axoloty_embedded.Interval.add_value
    axoloty_embedded.Interval.join_sets axoloty_embedded.Interval.bounded
    axoloty_embedded.Interval.union axoloty_embedded.Interval.results_for
    axoloty_embedded.Interval.results axoloty_embedded.Interval.arithmetic
    axoloty_embedded.Interval.recall axoloty_embedded.Interval.join_registers
    axoloty_embedded.Interval.join_memory axoloty_embedded.Interval.same_values
    axoloty_embedded.Interval.merge axoloty_embedded.Interval.Branch.register
    axoloty_embedded.Interval.Branch.operands axoloty_embedded.Interval.Branch.operand
    axoloty_embedded.Interval.Branch.register_operand axoloty_embedded.Interval.Branch.up_to
    axoloty_embedded.Interval.Branch.refine_zero axoloty_embedded.Interval.Branch.refine_pair
    axoloty_embedded.Interval.Branch.refine axoloty_embedded.Interval.Integers.int_and
    axoloty_embedded.Interval.Integers.int_or axoloty_embedded.Interval.Integers.int_xor
    axoloty_embedded.Interval.Integers.shift_left axoloty_embedded.Interval.Integers.shift_right
    axoloty_embedded.Interval.Alu.integer axoloty_embedded.Interval.Alu.binary_operands
    axoloty_embedded.Interval.Alu.binary axoloty_embedded.Interval.Alu.shift
    axoloty_embedded.Interval.Alu.submasks axoloty_embedded.Interval.Alu.masked
    axoloty_embedded.Interval.Alu.mask_step axoloty_embedded.Interval.Offset.offset_match
    axoloty_embedded.Interval.Access.little axoloty_embedded.Interval.Access.read
    axoloty_embedded.Interval.Access.addresses_of axoloty_embedded.Interval.Access.fetched_any
    axoloty_embedded.Interval.Access.extend_all axoloty_embedded.Interval.Access.load
    axoloty_embedded.Interval.Access.forget axoloty_embedded.Interval.Access.store
    axoloty_embedded.Interval.Transfer.kind_of axoloty_embedded.Interval.Transfer.step_kind
    axoloty_embedded.Interval.Transfer.data_step
load_run = refl

abbrev stored_effect : Effect
stored_effect = record { regs = stack_regs; memory = (slot, const (pos 5)) ∷ []; accesses = [] }

store_run : store (site "sw") 4 slot_operands stack_regs facts ≡ ok stored_effect
unfolding axoloty_embedded.Prelude.Text.codes_eq axoloty_embedded.Prelude.Text.after_prefix
    axoloty_embedded.Prelude.Text.starts_with axoloty_embedded.Prelude.Text.ends_with
    axoloty_embedded.Prelude.Text.contains_text axoloty_embedded.Prelude.Text.split_once
    axoloty_embedded.Prelude.Text.split_on axoloty_embedded.Prelude.Text.is_space
    axoloty_embedded.Prelude.Text.strip_left axoloty_embedded.Prelude.Text.strip
    axoloty_embedded.Prelude.Text.lower axoloty_embedded.Prelude.Text.is_line_break
    axoloty_embedded.Prelude.Text.split_breaks axoloty_embedded.Prelude.Text.splitlines
    axoloty_embedded.Prelude.Text.is_hex_digit axoloty_embedded.Prelude.Text.is_hex
    axoloty_embedded.Prelude.Int.◌+ℤ◌ axoloty_embedded.Prelude.Int.◌-ℤ◌
    axoloty_embedded.Stack.Operands.reg axoloty_embedded.Stack.Operands.is_reg
    axoloty_embedded.Stack.Operands.operand_parts axoloty_embedded.Stack.Operands.parse_int
    axoloty_embedded.Stack.Operands.stack_step axoloty_embedded.Interval.add_value
    axoloty_embedded.Interval.join_sets axoloty_embedded.Interval.bounded
    axoloty_embedded.Interval.union axoloty_embedded.Interval.results_for
    axoloty_embedded.Interval.results axoloty_embedded.Interval.arithmetic
    axoloty_embedded.Interval.recall axoloty_embedded.Interval.join_registers
    axoloty_embedded.Interval.join_memory axoloty_embedded.Interval.same_values
    axoloty_embedded.Interval.merge axoloty_embedded.Interval.Branch.register
    axoloty_embedded.Interval.Branch.operands axoloty_embedded.Interval.Branch.operand
    axoloty_embedded.Interval.Branch.register_operand axoloty_embedded.Interval.Branch.up_to
    axoloty_embedded.Interval.Branch.refine_zero axoloty_embedded.Interval.Branch.refine_pair
    axoloty_embedded.Interval.Branch.refine axoloty_embedded.Interval.Integers.int_and
    axoloty_embedded.Interval.Integers.int_or axoloty_embedded.Interval.Integers.int_xor
    axoloty_embedded.Interval.Integers.shift_left axoloty_embedded.Interval.Integers.shift_right
    axoloty_embedded.Interval.Alu.integer axoloty_embedded.Interval.Alu.binary_operands
    axoloty_embedded.Interval.Alu.binary axoloty_embedded.Interval.Alu.shift
    axoloty_embedded.Interval.Alu.submasks axoloty_embedded.Interval.Alu.masked
    axoloty_embedded.Interval.Alu.mask_step axoloty_embedded.Interval.Offset.offset_match
    axoloty_embedded.Interval.Access.little axoloty_embedded.Interval.Access.read
    axoloty_embedded.Interval.Access.addresses_of axoloty_embedded.Interval.Access.fetched_any
    axoloty_embedded.Interval.Access.extend_all axoloty_embedded.Interval.Access.load
    axoloty_embedded.Interval.Access.forget axoloty_embedded.Interval.Access.store
    axoloty_embedded.Interval.Transfer.kind_of axoloty_embedded.Interval.Transfer.step_kind
    axoloty_embedded.Interval.Transfer.data_step
store_run = refl

data_run : data_step (site "lw") slot_operands stack_regs facts ≡ ok loaded_effect
unfolding axoloty_embedded.Prelude.Text.codes_eq axoloty_embedded.Prelude.Text.after_prefix
    axoloty_embedded.Prelude.Text.starts_with axoloty_embedded.Prelude.Text.ends_with
    axoloty_embedded.Prelude.Text.contains_text axoloty_embedded.Prelude.Text.split_once
    axoloty_embedded.Prelude.Text.split_on axoloty_embedded.Prelude.Text.is_space
    axoloty_embedded.Prelude.Text.strip_left axoloty_embedded.Prelude.Text.strip
    axoloty_embedded.Prelude.Text.lower axoloty_embedded.Prelude.Text.is_line_break
    axoloty_embedded.Prelude.Text.split_breaks axoloty_embedded.Prelude.Text.splitlines
    axoloty_embedded.Prelude.Text.is_hex_digit axoloty_embedded.Prelude.Text.is_hex
    axoloty_embedded.Prelude.Int.◌+ℤ◌ axoloty_embedded.Prelude.Int.◌-ℤ◌
    axoloty_embedded.Stack.Operands.reg axoloty_embedded.Stack.Operands.is_reg
    axoloty_embedded.Stack.Operands.operand_parts axoloty_embedded.Stack.Operands.parse_int
    axoloty_embedded.Stack.Operands.stack_step axoloty_embedded.Interval.add_value
    axoloty_embedded.Interval.join_sets axoloty_embedded.Interval.bounded
    axoloty_embedded.Interval.union axoloty_embedded.Interval.results_for
    axoloty_embedded.Interval.results axoloty_embedded.Interval.arithmetic
    axoloty_embedded.Interval.recall axoloty_embedded.Interval.join_registers
    axoloty_embedded.Interval.join_memory axoloty_embedded.Interval.same_values
    axoloty_embedded.Interval.merge axoloty_embedded.Interval.Branch.register
    axoloty_embedded.Interval.Branch.operands axoloty_embedded.Interval.Branch.operand
    axoloty_embedded.Interval.Branch.register_operand axoloty_embedded.Interval.Branch.up_to
    axoloty_embedded.Interval.Branch.refine_zero axoloty_embedded.Interval.Branch.refine_pair
    axoloty_embedded.Interval.Branch.refine axoloty_embedded.Interval.Integers.int_and
    axoloty_embedded.Interval.Integers.int_or axoloty_embedded.Interval.Integers.int_xor
    axoloty_embedded.Interval.Integers.shift_left axoloty_embedded.Interval.Integers.shift_right
    axoloty_embedded.Interval.Alu.integer axoloty_embedded.Interval.Alu.binary_operands
    axoloty_embedded.Interval.Alu.binary axoloty_embedded.Interval.Alu.shift
    axoloty_embedded.Interval.Alu.submasks axoloty_embedded.Interval.Alu.masked
    axoloty_embedded.Interval.Alu.mask_step axoloty_embedded.Interval.Offset.offset_match
    axoloty_embedded.Interval.Access.little axoloty_embedded.Interval.Access.read
    axoloty_embedded.Interval.Access.addresses_of axoloty_embedded.Interval.Access.fetched_any
    axoloty_embedded.Interval.Access.extend_all axoloty_embedded.Interval.Access.load
    axoloty_embedded.Interval.Access.forget axoloty_embedded.Interval.Access.store
    axoloty_embedded.Interval.Transfer.kind_of axoloty_embedded.Interval.Transfer.step_kind
    axoloty_embedded.Interval.Transfer.data_step
data_run = refl

data_step-Keeps_example :
    (length loaded_effect.regs ≡ length stack_regs)
    × (known loaded_effect.regs 0 ≡ known stack_regs 0)
    × (known loaded_effect.regs 2 ≢ none)
data_step-Keeps_example =
    data_step-Keeps (site "lw") slot_operands stack_regs facts loaded_effect data_run

-- A memory of nines.
abbrev nines : Place → ℤ
nines place = pos 9

facts-Recalls : Recalls facts nines
unfolding recall
facts-Recalls key v h = elim (Bool-cases (same_place slot key)) [
  | inl e ↦ let same : const (pos 9) ≡ v = some-eq (rw e at h) in subst (May (pos 9)) same refl
  | inr e ↦ absurd (cc (rw e at h))
]

stack_machine : List ℤ
stack_machine = pos 0 ∷ pos 99 ∷ pos (2 ^ 48 - 32) ∷ pos 5 ∷ []

-- A read-only section, whose second byte is negative as a signed one.
abbrev bytes : List ℕ
bytes = 7 ∷ 240 ∷ []

abbrev section : Section
section = record { start = 5; bytes = bytes; readonly = true }

abbrev image_site : Site
image_site = record { sections = section ∷ []; pc = 8; mnemonic = "lb"; sp = pos (2 ^ 48 - 32) }

abbrev byte_operands : List Text
byte_operands = codes "x1" ∷ codes "1(x3)" ∷ []

abbrev byte_effect : Effect
byte_effect = record {
  regs = const (pos 0) ∷ const (pos 4294967280) ∷ const (pos (2 ^ 48 - 32)) ∷ const (pos 5) ∷ [];
  memory = [];
  accesses = record { pc = 8; mnemonic = "lb"; pointer = 6; width = 1 } ∷ [];
}

byte_run : load image_site 1 byte_operands stack_regs [] ≡ ok byte_effect
unfolding axoloty_embedded.Prelude.Text.codes_eq axoloty_embedded.Prelude.Text.after_prefix
    axoloty_embedded.Prelude.Text.starts_with axoloty_embedded.Prelude.Text.ends_with
    axoloty_embedded.Prelude.Text.contains_text axoloty_embedded.Prelude.Text.split_once
    axoloty_embedded.Prelude.Text.split_on axoloty_embedded.Prelude.Text.is_space
    axoloty_embedded.Prelude.Text.strip_left axoloty_embedded.Prelude.Text.strip
    axoloty_embedded.Prelude.Text.lower axoloty_embedded.Prelude.Text.is_line_break
    axoloty_embedded.Prelude.Text.split_breaks axoloty_embedded.Prelude.Text.splitlines
    axoloty_embedded.Prelude.Text.is_hex_digit axoloty_embedded.Prelude.Text.is_hex
    axoloty_embedded.Prelude.Int.◌+ℤ◌ axoloty_embedded.Prelude.Int.◌-ℤ◌
    axoloty_embedded.Stack.Operands.reg axoloty_embedded.Stack.Operands.is_reg
    axoloty_embedded.Stack.Operands.operand_parts axoloty_embedded.Stack.Operands.parse_int
    axoloty_embedded.Stack.Operands.stack_step axoloty_embedded.Interval.add_value
    axoloty_embedded.Interval.join_sets axoloty_embedded.Interval.bounded
    axoloty_embedded.Interval.union axoloty_embedded.Interval.results_for
    axoloty_embedded.Interval.results axoloty_embedded.Interval.arithmetic
    axoloty_embedded.Interval.recall axoloty_embedded.Interval.join_registers
    axoloty_embedded.Interval.join_memory axoloty_embedded.Interval.same_values
    axoloty_embedded.Interval.merge axoloty_embedded.Interval.Branch.register
    axoloty_embedded.Interval.Branch.operands axoloty_embedded.Interval.Branch.operand
    axoloty_embedded.Interval.Branch.register_operand axoloty_embedded.Interval.Branch.up_to
    axoloty_embedded.Interval.Branch.refine_zero axoloty_embedded.Interval.Branch.refine_pair
    axoloty_embedded.Interval.Branch.refine axoloty_embedded.Interval.Integers.int_and
    axoloty_embedded.Interval.Integers.int_or axoloty_embedded.Interval.Integers.int_xor
    axoloty_embedded.Interval.Integers.shift_left axoloty_embedded.Interval.Integers.shift_right
    axoloty_embedded.Interval.Alu.integer axoloty_embedded.Interval.Alu.binary_operands
    axoloty_embedded.Interval.Alu.binary axoloty_embedded.Interval.Alu.shift
    axoloty_embedded.Interval.Alu.submasks axoloty_embedded.Interval.Alu.masked
    axoloty_embedded.Interval.Alu.mask_step axoloty_embedded.Interval.Offset.offset_match
    axoloty_embedded.Interval.Access.little axoloty_embedded.Interval.Access.read
    axoloty_embedded.Interval.Access.addresses_of axoloty_embedded.Interval.Access.fetched_any
    axoloty_embedded.Interval.Access.extend_all axoloty_embedded.Interval.Access.load
    axoloty_embedded.Interval.Access.forget axoloty_embedded.Interval.Access.store
    axoloty_embedded.Interval.Transfer.kind_of axoloty_embedded.Interval.Transfer.step_kind
    axoloty_embedded.Interval.Transfer.data_step
byte_run = refl

abbrev image_memory : Place → ℤ
image_memory (pos address, size) = pos (number_of (drop (address - 5) bytes) size)
image_memory (negsuc n, size) = pos 0

image-Immutable : Immutable (section ∷ []) image_memory
image-Immutable s (inl e) r offset size l =
    let same : 5 + offset - 5 ≡ offset = omega arith in
    subst
      (λ (t : Section).
        image_memory (pos (t.start + offset), size) ≡ pos (number_of (drop offset t.bytes) size))
      (sym e) (rw same refl)
image-Immutable s (inr m) r offset size l = absurd m

nothing-Recalls : Recalls [] image_memory
unfolding recall
nothing-Recalls key v h = absurd (cc)

load-Describes_example : Describes byte_effect.regs (write 1 (pos 4294967280) stack_machine)
unfolding number_of axoloty_embedded.Interval.Branch.register_operand
    axoloty_embedded.Interval.Branch.operand axoloty_embedded.Interval.Branch.register
    axoloty_embedded.Interval.Offset.offset_match axoloty_embedded.Interval.Access.addresses_of
    axoloty_embedded.Interval.arithmetic axoloty_embedded.Interval.results
    axoloty_embedded.Interval.results_for axoloty_embedded.Interval.add_value
    axoloty_embedded.Interval.join_sets axoloty_embedded.Interval.bounded
    axoloty_embedded.Prelude.Int.◌+ℤ◌ stack_machine
load-Describes_example =
    load-Describes image_site 1 byte_operands stack_regs [] byte_effect stack_machine image_memory 3
      1 (pos 1) (pos 4294967280) byte_run (codes "1(x3)", codes "x3", refl, refl, refl) refl
      (refl, (tt, (refl, (refl, tt)))) nothing-Recalls image-Immutable
      (inl (refl, refl, 240, omega arith, refl, refl))

-- Fives behind the store.
fives : Place → ℤ
fives place = if overlaps place slot then pos 5 else pos 9

store-Recalls_example : (stored_effect.regs ≡ stack_regs) × Recalls stored_effect.memory fives
unfolding axoloty_embedded.Interval.Branch.register_operand axoloty_embedded.Interval.Branch.operand
    axoloty_embedded.Interval.Branch.register axoloty_embedded.Interval.Offset.offset_match
    axoloty_embedded.Interval.Access.addresses_of axoloty_embedded.Interval.arithmetic
    axoloty_embedded.Interval.results axoloty_embedded.Interval.results_for
    axoloty_embedded.Interval.add_value axoloty_embedded.Interval.join_sets
    axoloty_embedded.Interval.bounded axoloty_embedded.Prelude.Int.◌+ℤ◌ stack_machine fives
store-Recalls_example =
    store-Recalls (site "sw") 4 slot_operands stack_regs facts stored_effect stack_machine nines
      fives (pos (2 ^ 48 - 16)) 3 store_run refl refl refl (refl, (tt, (refl, (refl, tt))))
      facts-Recalls refl (λ key apart. rw apart refl)

abbrev calls : List (ℕ × ℕ)
calls = (1, 2) ∷ (1, 3) ∷ (2, 3) ∷ []

acyclic_run : check_acyclic 5 calls ≡ ok (1 ∷ 2 ∷ 3 ∷ [])
unfolding check_acyclic acyclic complete_all callees
acyclic_run = refl

check_acyclic-no_cycle_example : ¬ Leads calls 1 1
check_acyclic-no_cycle_example = check_acyclic-no_cycle 5 calls (1 ∷ 2 ∷ 3 ∷ []) acyclic_run 1
