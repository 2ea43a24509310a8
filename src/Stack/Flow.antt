-- ===== src/Stack/Flow.antt =====
-- `successors` of Tools/EmbeddedApplicationMacros/first_init_stack.py: where control goes behind an
-- instruction, inside its function.
pub mod Inside
use axoloty_embedded.Prelude.{
  ℕ, zero, suc, ◌+◌, ◌≡◌, refl, Bool, true, false, not, ◌&&◌, ◌||◌, String, str_eq, Option, none,
  some, List, [], ◌∷◌, map, ◌==◌, if◌then◌else◌, any, get_elem?,
}
use axoloty_embedded.Prelude.Text.{codes, codes_eq}
use axoloty_embedded.Stack.Instruction.{Instruction, Function}
use axoloty_embedded.Stack.Operands.{
  Text, text_in, reg, is_reg, operand_parts, first_part, abi_regs,
}

abbrev pub branches : List String
branches =
    "beq" ∷ "bne" ∷ "blt" ∷ "bge" ∷ "bltu" ∷ "bgeu" ∷ "beqz" ∷ "bnez" ∷ "blez" ∷ "bgez" ∷ "bltz"
    ∷ "bgtz" ∷ "c.beqz" ∷ "c.bnez" ∷ []

abbrev pub returns : List String
returns = "ret" ∷ "c.ret" ∷ []

abbrev pub uncond_jumps : List String
uncond_jumps = "j" ∷ "c.j" ∷ []

abbrev pub register_jumps : List String
register_jumps = "jr" ∷ "c.jr" ∷ []

abbrev pub system_traps : List String
system_traps = "ecall" ∷ "ebreak" ∷ "c.ebreak" ∷ "wfi" ∷ "unimp" ∷ "mret" ∷ "sret" ∷ []

abbrev pub supported_linear : List String
supported_linear =
    "add" ∷ "addi" ∷ "and" ∷ "andi" ∷ "auipc" ∷ "div" ∷ "divu" ∷ "fence" ∷ "li" ∷ "lui" ∷ "mul"
    ∷ "mulh" ∷ "mulhsu" ∷ "mulhu" ∷ "mv" ∷ "neg" ∷ "nop" ∷ "not" ∷ "or" ∷ "ori" ∷ "rem" ∷ "remu"
    ∷ "seqz" ∷ "sgtz" ∷ "sll" ∷ "slli" ∷ "slt" ∷ "slti" ∷ "sltiu" ∷ "sltu" ∷ "snez" ∷ "sra" ∷ "srai"
    ∷ "srl" ∷ "srli" ∷ "sub" ∷ "xor" ∷ "xori" ∷ "zext.b" ∷ "lb" ∷ "lbu" ∷ "lh" ∷ "lhu" ∷ "lw" ∷ "sb"
    ∷ "sh" ∷ "sw" ∷ "csrr" ∷ "csrrc" ∷ "csrrci" ∷ "csrrs" ∷ "csrrsi" ∷ "csrw" ∷ "csrci" ∷ "csrsi"
    ∷ "amoadd.w" ∷ "amoadd.w.aqrl" ∷ "amoand.w.aqrl" ∷ "amoor.w.aqrl" ∷ "lr.w" ∷ "lr.w.aq" ∷ "sc.w"
    ∷ "sc.w.rl" ∷ "c.addi" ∷ "c.addi16sp" ∷ "c.li" ∷ "c.lui" ∷ "c.mv" ∷ "c.add" ∷ "c.nop" ∷ "c.lw"
    ∷ "c.sw" ∷ "c.lwsp" ∷ "c.swsp" ∷ "c.slli" ∷ "c.srli" ∷ "c.srai" ∷ "c.andi" ∷ "c.sub" ∷ "c.xor"
    ∷ "c.or" ∷ "c.and" ∷ "c.addi4spn" ∷ "c.zext.b" ∷ "c.sext.b" ∷ "c.zext.h" ∷ "c.sext.h"
    ∷ "c.zext.w" ∷ "c.not" ∷ "c.neg" ∷ []

-- The triple that `successors` returns: next addresses, whether the function ends, a problem.
pub record Flow : Type 0 where
  pub next : List ℕ
  pub exit : Bool
  pub problem : Option String

abbrev pub refuse : String → Flow
refuse message = record { next = []; exit = false; problem = some message }

abbrev pub leave : Option String → Flow
leave problem = record { next = []; exit = true; problem = problem }

abbrev pub go : List ℕ → Flow
go next = record { next = next; exit = false; problem = none }

abbrev pub member : ℕ → List ℕ → Bool
member n ns = any (λ m. m == n) ns

-- `ins.target in starts`; no target is in no set.
abbrev pub known : Option ℕ → List ℕ → Option ℕ
known none starts = none
known (some pc) starts = if member pc starts then some pc else none

abbrev following_at : Option Instruction → ℕ → Option ℕ
following_at none pc = none
following_at (some next) pc = if next.address == pc then some pc else none

-- The address behind the instruction, if the next instruction stands there and it is in `starts`.
next_address : Function → ℕ → Instruction → List ℕ → Option ℕ
next_address fn index ins starts =
    known (following_at (get_elem? fn.instructions (suc index)) (ins.address + ins.size)) starts

abbrev pub fall_through : Option ℕ → String → Flow
fall_through none message = refuse message
fall_through (some next) message = go (next ∷ [])

-- `jal x0` and `c.jal` with x0 as its link: a jump.
abbrev pub direct_jump : Option ℕ → Option ℕ → Flow
direct_jump none inside = refuse "unresolved direct jump"
direct_jump (some pc) none = go []
direct_jump (some pc) (some inside) = go (inside ∷ [])

abbrev pub jump : Option ℕ → Option ℕ → Flow
jump target (some inside) = go (inside ∷ [])
jump none none = leave (some "unresolved direct jump")
jump (some pc) none = leave none

abbrev pub branch : Option ℕ → Option ℕ → Flow
branch none next = refuse "branch target %r is absent from the function instruction graph"
branch (some inside) none = refuse "branch fallthrough instruction is missing or discontinuous"
branch (some inside) (some next) = go (inside ∷ next ∷ [])

abbrev pub call : Option ℕ → Option ℕ → String → Flow
call none next message = refuse message
call (some pc) next message =
    fall_through next "call fallthrough instruction is missing or discontinuous"

-- `rd = reg(args[0]) if len(args) > 1 else "ra"`
unfoldable pub link_register : List Text → Text
unfolding reg
link_register (rd ∷ arg ∷ args) = reg rd
link_register _ = codes "ra"

is_abi_register : Text → Bool
unfolding codes_eq
is_abi_register rd = any (λ name. codes_eq rd (codes name)) abi_regs

jal_flow : Instruction → Option ℕ → Option ℕ → Flow
unfolding link_register operand_parts is_abi_register codes_eq
jal_flow ins inside next =
    let rd = link_register (operand_parts ins) in
    if codes_eq rd (codes "zero")
    then direct_jump ins.target inside
    else if not (is_abi_register rd)
    then refuse "unsupported link register %r"
    else call ins.target next "direct call target is missing"

jalr_flow : Instruction → Option ℕ → Flow
unfolding link_register operand_parts codes_eq
jalr_flow ins next =
    if codes_eq (link_register (operand_parts ins)) (codes "zero")
    then refuse "indirect tail transfer"
    else call ins.target next
        "indirect call/continuation target is not proven by local control flow"

unfoldable pub successors : Function → ℕ → Instruction → List ℕ → Flow
unfolding next_address jal_flow jalr_flow is_reg
successors fn index ins starts =
    let next = next_address fn index ins starts in
    let inside = known ins.target starts in
    let m = ins.mnemonic in
    if text_in m returns || (text_in m register_jumps && is_reg (codes ins.operands) "ra")
    then leave none
    else if text_in m system_traps
    then refuse "system trap/exception flow is not modeled"
    else if text_in m uncond_jumps
    then jump ins.target inside
    else if text_in m branches
    then branch inside next
    else if text_in m register_jumps && is_reg (codes ins.operands) "t0"
    then leave none
    else if text_in m register_jumps
    then refuse "indirect control transfer (including outlined link-register continuation)"
    else if text_in m ("jal" ∷ "c.jal" ∷ [])
    then jal_flow ins inside next
    else if str_eq m "jalr"
    then jalr_flow ins next
    else if not (text_in m supported_linear)
    then refuse "unsupported instruction/control-flow semantics for %s"
    else fall_through next "missing or discontinuous fallthrough instruction"
