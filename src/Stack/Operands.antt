-- ===== src/Stack/Operands.antt =====
-- Operands of Tools/EmbeddedApplicationMacros/first_init_stack.py: register names, Python's
-- `int(text, 0)` on ASCII text, and the stack step of an instruction.
use axoloty_embedded.Prelude.{
  ℕ, zero, ◌+◌, ◌-◌, ◌*◌, ◌≡◌, refl, Bool, true, false, not, ◌&&◌, ◌||◌, String, str_eq, Option,
  none, some, List, [], ◌∷◌, map, ◌==◌, ltb, leb, if◌then◌else◌, any,
}
use axoloty_embedded.Prelude.Int.{ℤ, pos, negsuc, sub_ℕ}
use axoloty_embedded.Prelude.Text.{codes, codes_eq, split_on, strip}
use axoloty_embedded.Stack.Instruction.{Instruction}

abbrev pub Text : Type 0
Text = List ℕ

-- `text in (…)` and `mnemonic in {…}`
abbrev pub text_in : String → List String → Bool
text_in s names = any (str_eq s) names

abbrev pub abi_regs : List String
abi_regs =
    "zero" ∷ "ra" ∷ "sp" ∷ "gp" ∷ "tp" ∷ "t0" ∷ "t1" ∷ "t2" ∷ "s0" ∷ "s1" ∷ "a0" ∷ "a1" ∷ "a2"
    ∷ "a3" ∷ "a4" ∷ "a5" ∷ "a6" ∷ "a7" ∷ "s2" ∷ "s3" ∷ "s4" ∷ "s5" ∷ "s6" ∷ "s7" ∷ "s8" ∷ "s9"
    ∷ "s10" ∷ "s11" ∷ "t3" ∷ "t4" ∷ "t5" ∷ "t6" ∷ []

-- The keys of REG_ALIASES, in the order of the registers.
abbrev pub x_names : List String
x_names =
    "x0" ∷ "x1" ∷ "x2" ∷ "x3" ∷ "x4" ∷ "x5" ∷ "x6" ∷ "x7" ∷ "x8" ∷ "x9" ∷ "x10" ∷ "x11" ∷ "x12"
    ∷ "x13" ∷ "x14" ∷ "x15" ∷ "x16" ∷ "x17" ∷ "x18" ∷ "x19" ∷ "x20" ∷ "x21" ∷ "x22" ∷ "x23" ∷ "x24"
    ∷ "x25" ∷ "x26" ∷ "x27" ∷ "x28" ∷ "x29" ∷ "x30" ∷ "x31" ∷ []

alias : List String → List String → Text → Text
unfolding codes_eq
alias (x ∷ xs) (name ∷ names) value =
    let rest = alias xs names value in if codes_eq value (codes x) then codes name else rest
alias _ _ value = value

unfoldable pub reg : Text → Text
unfolding alias strip
reg value = alias x_names abi_regs (strip value)

-- `reg(value) == name`
unfoldable pub is_reg : Text → String → Bool
unfolding reg codes_eq
is_reg value name = codes_eq (reg value) (codes name)

-- `[part.strip() for part in ins.operands.split(",")]`
unfoldable pub operand_parts : Instruction → List Text
unfolding split_on strip
operand_parts ins = map strip (split_on b',' (codes ins.operands))

-- The first operand; a Python `split` has at least one part.
abbrev pub first_part : List Text → Text
first_part [] = []
first_part (part ∷ parts) = part

digit_of : ℕ → Option ℕ
digit_of c =
    if leb 48 c && leb c 57
    then some (c - 48)
    else if leb 97 c && leb c 122
    then some (c - 87)
    else if leb 65 c && leb c 90
    then some (c - 55)
    else none

-- Digits with single underscores between them; `open_end` asks for a digit next.
digits : ℕ → ℕ → Bool → Text → Option ℕ
unfolding digit_of
digits base acc open_end [] = if open_end then none else some acc
digits base acc open_end (c ∷ rest) =
    let skipped = digits base acc true rest in
    let taken = λ (d : ℕ). digits base (acc * base + d) false rest in
    if c == 95
    then (if open_end then none else skipped)
    else elim (digit_of c) [ none ↦ none | some d ↦ if ltb d base then taken d else none ]

after_underscore : Text → Text
after_underscore [] = []
after_underscore (c ∷ rest) = if c == 95 then rest else c ∷ rest

-- A decimal numeral with a leading zero is zero, or no numeral.
only_zero : Option ℕ → Option ℕ
only_zero (some zero) = some 0
only_zero _ = none

magnitude : Text → Option ℕ
unfolding digits after_underscore only_zero
magnitude [] = none
magnitude (c ∷ []) = digits 10 0 true (c ∷ [])
magnitude (c ∷ d ∷ rest) =
    if not (c == 48)
    then digits 10 0 true (c ∷ d ∷ rest)
    else if d == b'x' || d == b'X'
    then digits 16 0 true (after_underscore rest)
    else if d == b'o' || d == b'O'
    then digits 8 0 true (after_underscore rest)
    else if d == b'b' || d == b'B'
    then digits 2 0 true (after_underscore rest)
    else only_zero (digits 10 0 true (c ∷ d ∷ rest))

positive_of : Option ℕ → Option ℤ
positive_of none = none
positive_of (some n) = some (pos n)

negative_of : Option ℕ → Option ℤ
negative_of none = none
negative_of (some n) = some (sub_ℕ 0 n)

signed_magnitude : Text → Option ℤ
unfolding magnitude positive_of negative_of
signed_magnitude [] = none
signed_magnitude (c ∷ rest) =
    if c == b'-'
    then negative_of (magnitude rest)
    else if c == b'+'
    then positive_of (magnitude rest)
    else positive_of (magnitude (c ∷ rest))

-- `int(text, 0)`; `none` is a ValueError.
unfoldable pub parse_int : Text → Option ℤ
unfolding signed_magnitude strip
parse_int text = signed_magnitude (strip text)

-- The immediate of an instruction that adds to sp, by its operands behind the first.
step_operand : String → List Text → Option ℤ
unfolding parse_int is_reg
step_operand mnemonic (immediate ∷ []) =
    if text_in mnemonic ("c.addi" ∷ "c.addi16sp" ∷ []) then parse_int immediate else none
step_operand mnemonic (source ∷ immediate ∷ []) =
    if text_in mnemonic ("addi" ∷ "c.addi" ∷ "c.addi16sp" ∷ []) && is_reg source "sp"
    then parse_int immediate
    else none
step_operand mnemonic _ = none

step_parts : String → List Text → Option ℤ
unfolding step_operand is_reg
step_parts mnemonic [] = some (pos 0)
step_parts mnemonic (dest ∷ parts) =
    if is_reg dest "sp" then step_operand mnemonic parts else some (pos 0)

-- The signed change of sp, or `none` for an unsupported write to sp.
unfoldable pub stack_step : Instruction → Option ℤ
unfolding step_parts operand_parts
stack_step ins = step_parts ins.mnemonic (operand_parts ins)

abbrev sample : String → String → Instruction
sample mnemonic operands = record {
  address = 0;
  mnemonic = mnemonic;
  operands = operands;
  target = none;
  size = 4;
}

stack_step_run :
    (stack_step (sample "addi" "x2, sp, -0x20") ≡ some (negsuc 31))
    × (stack_step (sample "c.addi16sp" "sp, 64") ≡ some (pos 64))
    × (stack_step (sample "lw" "a0, 8(sp)") ≡ some (pos 0))
    × (stack_step (sample "addi" "sp, s0, -16") ≡ none)
    × (parse_int (codes "0x_1F") ≡ some (pos 31))
    × (parse_int (codes "010") ≡ none)
    × (parse_int (codes " 1_000") ≡ some (pos 1000))
    × (parse_int (codes "1__0") ≡ none)
unfolding stack_step
stack_step_run = (refl, refl, refl, refl, refl, refl, refl, refl)
