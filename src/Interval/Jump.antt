-- ===== src/Interval/Jump.antt =====
-- Jumps, returns and calls in `Engine.analyze` of
-- Tools/EmbeddedApplicationMacros/initialization_interval.py.
use axoloty_embedded.Prelude.{
  ℕ, ◌+◌, Bool, false, not, ◌&&◌, String, str_eq, Option, none, some, List, [], ◌∷◌, ◌++◌,
  if◌then◌else◌, leb, ltb, ◌==◌, all,
}
use axoloty_embedded.Prelude.Int.{ℤ, pos, negsuc, ◌+ℤ◌, ◌-ℤ◌, leb_ℤ, ltb_ℤ, eq_ℤ}
use axoloty_embedded.Outcome.{Outcome, ok, raised, rejected, ◌>>=◌, ◌>>◌, reject_if}
use axoloty_embedded.Stack.Instruction.{Instruction}
use axoloty_embedded.Stack.Operands.{Text, text_in}
use axoloty_embedded.Interval.{Values, State, const, union, arithmetic, same_values, length}
use axoloty_embedded.Interval.Registers.{known}
use axoloty_embedded.Interval.Branch.{operands, operand, register, register_operand}
use axoloty_embedded.Interval.Integers.{int_and}
use axoloty_embedded.Interval.Alu.{set_register}
use axoloty_embedded.Interval.Offset.{offset_match}
use axoloty_embedded.Interval.Access.{Memory}
use axoloty_embedded.Interval.Engine.{
  return_point, saved_registers, Engine, Options, Frame, Turn, single,
}

abbrev pub jump_names : List String
jump_names = "c.j" ∷ "jal" ∷ "c.jal" ∷ "jalr" ∷ "c.jalr" ∷ "c.jr" ∷ []

abbrev direct : Option ℕ → Values
direct none = none
direct (some target) = const (pos target)

offset_found : Option (ℤ × Text) → Outcome (ℤ × Text)
offset_found none = raised (rejected "unsupported jalr at %s")
offset_found (some found) = ok found

abbrev is_zero : ℤ → Bool
is_zero n = eq_ℤ n (pos 0)

-- `(x + y) & ~1`
abbrev even_sum : ℤ → ℤ → ℤ
even_sum x y = int_and (x +ℤ y) (negsuc 1)

abbrev register_target : Values → ℤ → Values
register_target base offset =
    if is_zero offset && same_values base (const return_point)
    then base
    else arithmetic base (const offset) even_sum

jalr_parts : List Text → List Values → Outcome (ℕ × Values)
unfolding offset_found int_and
jalr_parts op regs = do
  rd ← register_operand op 0
  text ← operand op 1
  found ← offset_found (offset_match text)
  r ← register found.1
  ok (rd, register_target (known regs r) found.0)

jal_parts : Instruction → Outcome (ℕ × Values)
jal_parts ins = do rd ← register_operand (operands ins) 0; ok (rd, direct ins.target)

register_jump : ℕ → List Text → List Values → Outcome (ℕ × Values)
register_jump rd op regs = do r ← register_operand op 0; ok (rd, known regs r)

-- The link register and the destinations of a jump.
unfoldable pub jump_parts : Instruction → List Values → Outcome (ℕ × Values)
unfolding jalr_parts jal_parts register_jump
jump_parts ins regs =
    if text_in ins.mnemonic ("c.j" ∷ "c.jal" ∷ [])
    then ok (if str_eq ins.mnemonic "c.jal" then 1 else 0, direct ins.target)
    else if str_eq ins.mnemonic "jal"
    then jal_parts ins
    else if str_eq ins.mnemonic "jalr"
    then jalr_parts (operands ins) regs
    else register_jump (if str_eq ins.mnemonic "c.jalr" then 1 else 0) (operands ins) regs

-- The saved registers hold what they held at the entry.
unfoldable pub check_saved : List ℕ → List Values → List Values → Outcome (Unit {0})
check_saved [] initial regs = ok tt
check_saved (r ∷ rest) initial regs = do
  reject_if (not (same_values (known regs r) (known initial r)))
      "callee-saved x%s not restored at %s"
  check_saved rest initial regs

abbrev pub has_stages : Options → Bool
has_stages options = ltb 0 (length options.stages)

-- A return from the analyzed function.
unfoldable pub return_from : Frame → Turn → Outcome Turn
return_from frame t = do
  reject_if (not (same_values (known t.regs 2) frame.initial_sp))
      "unbalanced/ambiguous return at %s"
  check_saved saved_registers frame.initial_regs t.regs
  reject_if (has_stages frame.options && t.phase == 2) "initializer can return without trace end"
  ok (record t {
    run = record t.run {
      returned = t.run.returned + 1;
      return_states =
          t.run.return_states
          ++ (record { regs = t.regs; memory = t.memory; phase = t.phase } ∷ []);
    };
    targets = [];
  })

abbrev pub with_engine : (Engine → Engine) → Turn → Turn
with_engine change t = record t { run = record t.run { engine = change t.run.engine } }

-- The facts that a copy of `length` bytes from `src` makes at `dst`, and those that it leaves.
unfoldable pub copied : ℤ → ℤ → ℕ → Memory → Memory
copied dst src length [] = []
copied dst src length (((at_, width), value) ∷ memory) =
    let rest = copied dst src length memory in
    if leb_ℤ src at_ && leb_ℤ (at_ +ℤ pos width) (src +ℤ pos length)
    then ((dst +ℤ at_ -ℤ src, width), value) ∷ rest
    else rest

unfoldable pub uncovered : ℤ → ℕ → Memory → Memory
uncovered dst length [] = []
uncovered dst length (((at_, width), value) ∷ memory) =
    let rest = uncovered dst length memory in
    if ltb_ℤ dst (at_ +ℤ pos width) && ltb_ℤ at_ (dst +ℤ pos length)
    then rest
    else ((at_, width), value) ∷ rest

abbrev is_private : Values → Bool
is_private none = false
is_private (some vs) = all (λ v. leb_ℤ v return_point) vs

-- The slots of saved registers.
unfoldable pub private_facts : Memory → Memory
private_facts [] = []
private_facts ((place, value) ∷ memory) =
    let rest = private_facts memory in if is_private value then (place, value) ∷ rest else rest

abbrev copy_known : ℤ → ℤ → ℤ → Memory → Memory
copy_known dst src (pos n) memory =
    if leb n 65536 then copied dst src n memory ++ uncovered dst n memory else memory
copy_known dst src (negsuc n) memory = memory

abbrev copy_single : Option ℤ → Option ℤ → Option ℤ → Memory → Memory
copy_single (some dst) (some src) (some n) memory = copy_known dst src n memory
copy_single _ _ _ memory = private_facts memory

-- The effect of ROM memcpy on the facts, by its three arguments.
unfoldable pub copy_facts : Values → Values → Values → Memory → Memory
copy_facts dst src n memory = copy_single (single dst) (single src) (single n) memory

unfoldable pub clobber : List ℕ → List Values → List Values
clobber [] regs = regs
clobber (r ∷ rest) regs = clobber rest (set_register r none regs)

abbrev exit_value : ℕ → Values → List State → Values
exit_value r value [] = value
exit_value r value (state ∷ states) = exit_value r (union value (known state.regs r)) states

-- The results of a summarized callee: a0 to a7 of its return states.
unfoldable pub export : List ℕ → List State → List Values → List Values
export rs [] regs = regs
export [] (state ∷ states) regs = regs
export (r ∷ rs) (state ∷ states) regs =
    export rs (state ∷ states) (set_register r (exit_value r (known state.regs r) states) regs)

abbrev pub result_registers : List ℕ
result_registers = 10 ∷ 11 ∷ 12 ∷ 13 ∷ 14 ∷ 15 ∷ 16 ∷ 17 ∷ []

abbrev pub states_or_none : Option (List State) → List State
states_or_none none = []
states_or_none (some states) = states
