-- ===== src/Interval/Branch.antt =====
-- The operands of an instruction, and what `Engine.analyze` of
-- Tools/EmbeddedApplicationMacros/initialization_interval.py learns from the edge that a branch
-- takes.
pub mod Sound
use axoloty_embedded.Prelude.{
  ℕ, ◌+◌, ◌-◌, ◌*◌, ◌^◌, ◌≡◌, refl, Bool, true, false, not, ◌&&◌, String, Option, none, some, List,
  [], ◌∷◌, if◌then◌else◌, any, all, select, leb, ltb, ◌==◌, map, set, suc, zero,
}
use axoloty_embedded.Prelude.Int.{ℤ, pos, negsuc, sub_ℕ, eq_ℤ, ltb_ℤ}
use axoloty_embedded.Prelude.Text.{codes, codes_eq, split_on, split_once, strip}
use axoloty_embedded.Outcome.{Outcome, ok, raised, rejected, index_error, value_error, ◌>>=◌}
use axoloty_embedded.Stack.Instruction.{Instruction}
use axoloty_embedded.Stack.Operands.{Text, text_in, x_names, parse_int}
use axoloty_embedded.Interval.{Values, is_deep, low_bits}
use axoloty_embedded.Interval.Registers.{known}

index_in : ℕ → List String → Text → Option ℕ
unfolding codes_eq
index_in n [] text = none
index_in n (name ∷ names) text =
    let later = index_in (n + 1) names text in if codes_eq text (codes name) then some n else later

register_found : Option ℕ → Outcome ℕ
register_found none = raised (rejected "unsupported register %s")
register_found (some r) = ok r

-- `register`: the texts x0 to x31.
unfoldable pub register : Text → Outcome ℕ
unfolding index_in register_found
register text = register_found (index_in 0 x_names text)

-- `operands`
unfoldable pub operands : Instruction → List Text
unfolding split_on split_once strip
operands ins = map strip (split_on b',' (split_once b'#' (codes ins.operands)).0)

-- `op[n]`
unfoldable pub operand : List Text → ℕ → Outcome Text
operand [] n = raised index_error
operand (part ∷ parts) n = if n == 0 then ok part else operand parts (n - 1)

unfoldable pub register_operand : List Text → ℕ → Outcome ℕ
register_operand op n = do part ← operand op n; register part

-- `signed`: the low word of an integer as a signed number.
abbrev pub signed_word : ℕ → ℤ
signed_word n = if ltb n 0x80000000 then pos n else negsuc (0x100000000 - n - 1)

abbrev pub signed : ℤ → ℤ
signed n = signed_word (low_bits n)

pub data Comparison : Type 0 where
  equal unsigned_less signed_less : Comparison

abbrev pub comparison_of : String → Comparison
comparison_of m =
    if text_in m ("beq" ∷ "bne" ∷ [])
    then equal
    else if text_in m ("bltu" ∷ "bgeu" ∷ [])
    then unsigned_less
    else signed_less

abbrev pub compares : Comparison → ℤ → ℤ → Bool
compares equal x y = low_bits x == low_bits y
compares unsigned_less x y = ltb (low_bits x) (low_bits y)
compares signed_less x y = ltb_ℤ (signed x) (signed y)

-- `a == b` of two truth values.
abbrev pub agree : Bool → Bool → Bool
agree true b = b
agree false b = not b

-- `-(1<<32) <= x < (1<<32)`
abbrev pub is_word : ℤ → Bool
is_word (pos n) = ltb n (2 ^ 32)
is_word (negsuc n) = not (is_deep (negsuc n))

-- The values of a register that a test keeps; none for an edge that no value takes.
abbrev pub narrowed : ℕ → List ℤ → List Values → Option (List Values)
narrowed r [] regs = none
narrowed r (v ∷ vs) regs = some (set regs r (some (v ∷ vs)))

abbrev pub narrow_zero : ℕ → Bool → Values → List Values → Option (List Values)
narrow_zero r wanted none regs = some regs
narrow_zero r wanted (some vs) regs =
    if all (λ x. not (is_deep x)) vs
    then narrowed r (select (λ x. agree (eq_ℤ x (pos 0)) wanted) vs) regs
    else some regs

-- The first and the second components of the pairs that pass the test.
abbrev pub lefts : (ℤ → ℤ → Bool) → List ℤ → List ℤ → List ℤ
lefts test xs ys = select (λ x. any (test x) ys) xs

abbrev pub rights : (ℤ → ℤ → Bool) → List ℤ → List ℤ → List ℤ
rights test xs ys = select (λ y. any (λ x. test x y) xs) ys

abbrev pub narrow_pairs :
    ℕ → ℕ → (ℤ → ℤ → Bool) → List ℤ → List ℤ → List Values → Option (List Values)
narrow_pairs a b test xs ys regs = elim (lefts test xs ys) [
  | [] ↦ none
  | x ∷ rest ↦ some (set (set regs a (some (x ∷ rest))) b (some (rights test xs ys)))
]

-- `range(limit + 1)`, the largest first.
unfoldable pub up_to : ℕ → List ℤ
up_to zero = pos 0 ∷ []
up_to (suc n) = pos (suc n) ∷ up_to n

abbrev pub narrow_limit : ℕ → List ℤ → List Values → List Values
narrow_limit b (pos limit ∷ []) regs =
    if leb limit 31 then set regs b (some (up_to limit)) else regs
narrow_limit b _ regs = regs

abbrev pub narrow_compare :
    Comparison → ℕ → ℕ → Bool → Values → Values → List Values → Option (List Values)
narrow_compare kind a b wanted (some xs) (some ys) regs =
    if all is_word xs && all is_word ys
    then narrow_pairs a b (λ x y. agree (compares kind x y) wanted) xs ys regs
    else some regs
narrow_compare unsigned_less a b false (some xs) none regs = some (narrow_limit b xs regs)
narrow_compare _ a b wanted _ _ regs = some regs

abbrev pub taken : Option ℕ → ℕ → Bool
taken none target = false
taken (some pc) target = target == pc

abbrev pub zero_branches : List String
zero_branches = "c.beqz" ∷ "c.bnez" ∷ []

abbrev pub pair_branches : List String
pair_branches = "beq" ∷ "bne" ∷ "blt" ∷ "bge" ∷ "bltu" ∷ "bgeu" ∷ []

-- `(target == ins.target) == (m in …)`: the outcome of the test on this edge.
abbrev pub outcome : Instruction → ℕ → List String → Bool
outcome ins target names = agree (taken ins.target target) (text_in ins.mnemonic names)

unfoldable pub refine_zero : Instruction → ℕ → List Values → Outcome (Option (List Values))
refine_zero ins target regs = do
  r ← register_operand (operands ins) 0
  ok (narrow_zero r (outcome ins target ("c.beqz" ∷ [])) (known regs r) regs)

unfoldable pub refine_pair : Instruction → ℕ → List Values → Outcome (Option (List Values))
refine_pair ins target regs = do
  a ← register_operand (operands ins) 0
  b ← register_operand (operands ins) 1
  ok (
      narrow_compare (comparison_of ins.mnemonic) a b
        (outcome ins target ("beq" ∷ "blt" ∷ "bltu" ∷ [])) (known regs a) (known regs b) regs)

-- The registers on the edge to a target; `none` within `ok` for an edge that is left out.
unfoldable pub refine : Instruction → ℕ → List Values → Outcome (Option (List Values))
refine ins target regs =
    if text_in ins.mnemonic zero_branches
    then refine_zero ins target regs
    else if text_in ins.mnemonic pair_branches
    then refine_pair ins target regs
    else ok (some regs)
