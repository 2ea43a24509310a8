-- ===== src/Interval/Transfer.antt =====
-- What one instruction that is no jump does to the registers and the memory facts: the data part of
-- the loop in `Engine.analyze` of Tools/EmbeddedApplicationMacros/initialization_interval.py.
pub mod Sound
pub mod Correct
use Prim.Native.Nat.{bit_and}
use axoloty_embedded.Prelude.{
  ℕ, zero, suc, ◌+◌, ◌-◌, ◌*◌, ◌^◌, ◌%◌, ◌≡◌, refl, Bool, true, false, not, ◌&&◌, ◌||◌, String,
  str_eq, Option, none, some, List, [], ◌∷◌, if◌then◌else◌, any, all, select, leb, ltb, ◌==◌, set,
  take, drop, length,
}
use axoloty_embedded.Prelude.Int.{ℤ, pos, negsuc, ◌+ℤ◌, ◌-ℤ◌, ltb_ℤ, leb_ℤ}
use axoloty_embedded.Prelude.Text.{codes, starts_with}
use axoloty_embedded.Outcome.{Outcome, ok, raised, rejected, value_error, ◌>>=◌, ◌>>◌, reject_if}
use axoloty_embedded.Stack.Operands.{Text, text_in, parse_int}
use axoloty_embedded.Interval.{
  Values, Place, const, union, arithmetic, is_deep, low_bits, low_word, recall,
}
use axoloty_embedded.Interval.Registers.{known}
use axoloty_embedded.Interval.Branch.{register, register_operand, operand}
use axoloty_embedded.Interval.Integers.{
  int_and, int_or, int_xor, shift_left, shift_right, less_unsigned, less_signed,
}
use axoloty_embedded.Interval.Access.{Site, Memory, Effect, load, store}
use axoloty_embedded.Interval.Alu.{integer, set_register, binary, shift, mask_step}

pub data Kind : Type 0 where
  memory_load : ℕ → Kind
  memory_store : ℕ → Kind
  load_upper add_upper load_immediate move_register : Kind
  -- the operation, and whether it takes an immediate and whether it reads its destination
  alu : (ℤ → ℤ → ℤ) → Bool → Bool → Kind
  shifts : (ℤ → ℤ → ℤ) → Bool → Kind
  mask : Bool → Kind
  no_effect : Kind
  -- a result that is not followed
  unknown unknown_but_sp unsupported : Kind

-- LOADS and STORES
abbrev widths_loaded : List (String × ℕ)
widths_loaded =
    ("lb", 1) ∷ ("lbu", 1) ∷ ("lh", 2) ∷ ("lhu", 2) ∷ ("lw", 4) ∷ ("c.lw", 4) ∷ ("c.lwsp", 4) ∷ []

abbrev widths_stored : List (String × ℕ)
widths_stored = ("sb", 1) ∷ ("sh", 2) ∷ ("sw", 4) ∷ ("c.sw", 4) ∷ ("c.swsp", 4) ∷ []

width_of : String → List (String × ℕ) → Option ℕ
width_of m [] = none
width_of m ((name, size) ∷ rest) =
    let later = width_of m rest in if str_eq m name then some size else later

-- `m.startswith('c.')`
is_compressed : String → Bool
is_compressed m = starts_with (codes "c.") (codes m)

first_kind : List (List String × Kind) → String → Kind
first_kind [] m = unsupported
first_kind ((names, kind) ∷ rest) m =
    let later = first_kind rest m in if text_in m names then kind else later

abbrev csr_names : List String
csr_names =
    "csrrs" ∷ "csrrc" ∷ "csrrw" ∷ "csrrsi" ∷ "csrrci" ∷ "csrrwi" ∷ "lr.w" ∷ "lr.w.aq" ∷ "sc.w"
    ∷ "sc.w.rl" ∷ []

abbrev unfollowed_names : List String
unfollowed_names = "srai" ∷ "mul" ∷ "mulhu" ∷ "divu" ∷ "remu" ∷ "neg" ∷ "not" ∷ "seqz" ∷ "snez" ∷ []

-- The branches on the mnemonic behind loads and stores, in their order.
abbrev kinds : Bool → List (List String × Kind)
kinds compressed =
    ("lui" ∷ "c.lui" ∷ [], load_upper)
    ∷ ("auipc" ∷ [], add_upper)
    ∷ ("c.li" ∷ [], load_immediate)
    ∷ ("c.mv" ∷ [], move_register)
    ∷ ("addi" ∷ "c.addi4spn" ∷ [], alu ◌+ℤ◌ true false)
    ∷ ("c.addi" ∷ "c.addi16sp" ∷ [], alu ◌+ℤ◌ true true)
    ∷ ("add" ∷ "c.add" ∷ [], alu ◌+ℤ◌ false compressed)
    ∷ ("sub" ∷ "c.sub" ∷ [], alu ◌-ℤ◌ false compressed)
    ∷ ("andi" ∷ "c.andi" ∷ [], mask compressed)
    ∷ ("slli" ∷ "c.slli" ∷ [], shifts shift_left compressed)
    ∷ ("srli" ∷ "c.srli" ∷ [], shifts shift_right compressed)
    ∷ ("xori" ∷ [], alu int_xor true false)
    ∷ ("ori" ∷ [], alu int_or true false)
    ∷ ("or" ∷ "c.or" ∷ [], alu int_or false compressed)
    ∷ ("and" ∷ "c.and" ∷ [], alu int_and false compressed)
    ∷ ("xor" ∷ "c.xor" ∷ [], alu int_xor false compressed)
    ∷ ("fence" ∷ "fence.i" ∷ "c.nop" ∷ [], no_effect)
    ∷ (csr_names, unknown)
    ∷ ("sltiu" ∷ [], alu less_unsigned true false)
    ∷ ("slti" ∷ [], alu less_signed true false)
    ∷ ("sltu" ∷ [], alu less_unsigned false false)
    ∷ ("slt" ∷ [], alu less_signed false false)
    ∷ (unfollowed_names, unknown_but_sp)
    ∷ []

unfoldable pub kind_of : String → Kind
unfolding width_of is_compressed first_kind
kind_of m = elim (width_of m widths_loaded) [
  | some size ↦ memory_load size
  | none ↦ elim (width_of m widths_stored) [
    | some size ↦ memory_store size
    | none ↦ first_kind (kinds (is_compressed m)) m
  ]
]

-- An effect on the registers alone.
pub registers_only : Memory → Outcome (List Values) → Outcome Effect
registers_only memory (raised e) = raised e
registers_only memory (ok regs) = ok (record { regs = regs; memory = memory; accesses = [] })

pub write_immediate : (ℤ → ℤ) → List Text → List Values → Outcome (List Values)
write_immediate value op regs = do
  dest ← register_operand op 0
  text ← operand op 1
  n ← integer text
  ok (set_register dest (const (value n)) regs)

pub move : List Text → List Values → Outcome (List Values)
move op regs = do
  dest ← register_operand op 0
  source ← register_operand op 1
  ok (set_register dest (known regs source) regs)

pub lose : List Text → List Values → Outcome (List Values)
lose op regs = do dest ← register_operand op 0; ok (set_register dest none regs)

pub lose_but_sp : List Text → List Values → Outcome (List Values)
lose_but_sp op regs = do
  dest ← register_operand op 0
  reject_if (dest == 2) "unsupported SP arithmetic at %s"
  ok (set_register dest none regs)

-- `n << 12`
abbrev upper : ℤ → ℤ
upper n = shift_left n (pos 12)

unfoldable pub step_kind : Kind → Site → List Text → List Values → Memory → Outcome Effect
unfolding registers_only write_immediate move lose lose_but_sp shift_left
step_kind (memory_load size) site op regs memory = load site size op regs memory
step_kind (memory_store size) site op regs memory = store site size op regs memory
step_kind load_upper site op regs memory = registers_only memory (write_immediate upper op regs)
step_kind add_upper site op regs memory =
    registers_only memory (write_immediate (λ n. low_word (pos site.pc +ℤ upper n)) op regs)
step_kind load_immediate site op regs memory =
    registers_only memory (write_immediate low_word op regs)
step_kind move_register site op regs memory = registers_only memory (move op regs)
step_kind (alu operation immediate compressed) site op regs memory =
    registers_only memory (binary operation immediate compressed op regs)
step_kind (shifts operation compressed) site op regs memory =
    registers_only memory (shift operation compressed op regs)
step_kind (mask compressed) site op regs memory =
    registers_only memory (mask_step compressed op regs)
step_kind no_effect site op regs memory = registers_only memory (ok regs)
step_kind unknown site op regs memory = registers_only memory (lose op regs)
step_kind unknown_but_sp site op regs memory = registers_only memory (lose_but_sp op regs)
step_kind unsupported site op regs memory = raised (rejected "unsupported instruction at %s: %s")

abbrev pub is_known : Values → Bool
is_known none = false
is_known (some vs) = true

-- The step, and the test of sp behind it.
unfoldable pub data_step : Site → List Text → List Values → Memory → Outcome Effect
data_step site op regs memory = do
  effect ← step_kind (kind_of site.mnemonic) site op regs memory
  reject_if (not (is_known (known effect.regs 2))) "unknown SP at %s"
  ok effect
