-- ===== src/Interval/Alu.antt =====
-- The instructions of registers alone in `Engine.analyze` of
-- Tools/EmbeddedApplicationMacros/initialization_interval.py: `setreg`, `binary` and the masks.
use Prim.Native.Nat.{bit_and}
use axoloty_embedded.Prelude.{
  ℕ, zero, suc, Bool, true, false, not, ◌&&◌, ◌||◌, Option, none, some, List, [], ◌∷◌,
  if◌then◌else◌, any, leb, ◌==◌, set,
}
use axoloty_embedded.Prelude.Int.{ℤ, pos, negsuc}
use axoloty_embedded.Outcome.{Outcome, ok, raised, value_error, ◌>>=◌, ◌>>◌, reject_if}
use axoloty_embedded.Stack.Operands.{Text, parse_int}
use axoloty_embedded.Interval.{Values, const, arithmetic, is_deep}
use axoloty_embedded.Interval.Registers.{known}
use axoloty_embedded.Interval.Branch.{register, register_operand}
use axoloty_embedded.Interval.Integers.{int_and}

-- `setreg`: x0 keeps its value.
abbrev pub set_register : ℕ → Values → List Values → List Values
set_register r value regs = if r == 0 then regs else set regs r value

integer_of : Option ℤ → Outcome ℤ
integer_of none = raised value_error
integer_of (some n) = ok n

unfoldable pub integer : Text → Outcome ℤ
unfolding integer_of
integer text = integer_of (parse_int text)

-- `op[-1]`
abbrev pub last_operand : List Text → Text
last_operand [] = []
last_operand (part ∷ []) = part
last_operand (part ∷ parts) = last_operand parts

abbrev pub is_single : Values → Bool
is_single (some (v ∷ [])) = true
is_single _ = false

pub record Binary : Type 0 where
  pub dest : ℕ
  pub left : Values
  pub right : Values

abbrev pub source_register : Bool → ℕ → List Text → Outcome ℕ
source_register true dest op = ok dest
source_register false dest op = register_operand op 1

abbrev pub right_values : Bool → List Text → List Values → Outcome Values
right_values true op regs = do n ← integer (last_operand op); ok (const n)
right_values false op regs = do r ← register (last_operand op); ok (known regs r)

unfoldable pub binary_operands : Bool → Bool → List Text → List Values → Outcome Binary
binary_operands immediate compressed op regs = do
  dest ← register_operand op 0
  source ← source_register compressed dest op
  right ← right_values immediate op regs
  ok (record { dest = dest; left = known regs source; right = right })

abbrev pub finish_binary : ℕ → Values → List Values → Outcome (List Values)
finish_binary dest value regs = do
  reject_if (dest == 2 && not (is_single value)) "dynamic SP write at %s"
  ok (set_register dest value regs)

-- `binary`
unfoldable pub binary : (ℤ → ℤ → ℤ) → Bool → Bool → List Text → List Values → Outcome (List Values)
binary operation immediate compressed op regs = do
  b ← binary_operands immediate compressed op regs
  finish_binary b.dest (arithmetic b.left b.right operation) regs

abbrev is_negative : ℤ → Bool
is_negative (pos n) = false
is_negative (negsuc n) = true

abbrev is_empty : List ℤ → Bool
is_empty [] = true
is_empty (x ∷ xs) = false

-- A shift by a negative count is a ValueError, if any shift is made.
abbrev pub negative_shift : Values → Values → Outcome (Unit {0})
negative_shift (some xs) (some ys) =
    if any is_deep xs || any is_deep ys || is_empty xs || not (any is_negative ys)
    then ok tt
    else raised value_error
negative_shift _ _ = ok tt

unfoldable pub shift : (ℤ → ℤ → ℤ) → Bool → List Text → List Values → Outcome (List Values)
shift operation compressed op regs = do
  b ← binary_operands true compressed op regs
  negative_shift b.left b.right
  finish_binary b.dest (arithmetic b.left b.right operation) regs

-- `n & mask == n` for the numbers up to the mask, the largest first.
unfoldable pub submasks : ℕ → ℕ → List ℤ
submasks mask zero = pos 0 ∷ []
submasks mask (suc n) =
    let rest = submasks mask n in if bit_and (suc n) mask == suc n then pos (suc n) ∷ rest else rest

unfoldable pub masked : ℤ → Values → Values
unfolding submasks
masked (pos mask) none = if leb mask 31 then some (submasks mask mask) else none
masked (negsuc n) none = none
masked mask (some xs) = arithmetic (some xs) (const mask) int_and

-- `andi` and `c.andi`
unfoldable pub mask_step : Bool → List Text → List Values → Outcome (List Values)
mask_step compressed op regs = do
  dest ← register_operand op 0
  reject_if (dest == 2) "dynamic SP alignment at %s"
  mask ← integer (last_operand op)
  source ← source_register compressed dest op
  ok (set_register dest (masked mask (known regs source)) regs)
