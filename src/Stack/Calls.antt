-- ===== src/Stack/Calls.antt =====
-- `call_sites`, `callback_argument_value` and the call order of `trace_interval_evidence` in
-- Tools/EmbeddedApplicationMacros/first_init_stack.py.
use axoloty_embedded.Prelude.{
  ℕ, ◌+◌, ◌-◌, ◌*◌, ◌%◌, ◌^◌, ◌≡◌, refl, Bool, false, not, ◌&&◌, ◌||◌, String, str_eq, Option, none,
  some, List, [], ◌∷◌, ◌++◌, if◌then◌else◌, any, leb, ltb, ◌==◌,
}
use axoloty_embedded.Prelude.Int.{ℤ, pos, negsuc, ◌+ℤ◌}
use axoloty_embedded.Outcome.{Outcome, ok, raised, index_error, ◌>>=◌}
use axoloty_embedded.Prelude.Text.{codes, codes_eq, is_space}
use axoloty_embedded.Stack.Instruction.{Instruction, Function, end_of}
use axoloty_embedded.Stack.Operands.{Text, text_in, reg, operand_parts, parse_int, abi_regs}
use axoloty_embedded.Stack.Flow.{branches, uncond_jumps, link_register}

pub data CallKind : Type 0 where
  tail_call tail_transfer plain_call outlined_link : CallKind

pub record CallSite : Type 0 where
  pub ins : Instruction
  pub target : Option ℕ
  pub kind : CallKind

abbrev calls_of_mnemonics : List String
calls_of_mnemonics = "jal" ∷ "c.jal" ∷ "jalr" ∷ []

abbrev tail_kind : Option ℕ → CallKind
tail_kind none = tail_transfer
tail_kind (some pc) = tail_call

-- A link to x0 does not come back.
call_kind : Text → Option ℕ → CallKind
call_kind rd target =
    if codes_eq rd (codes "zero")
    then tail_kind target
    else if codes_eq rd (codes "ra")
    then plain_call
    else outlined_link

linked_calls : List Instruction → List CallSite
unfolding call_kind
linked_calls [] = []
linked_calls (ins ∷ rest) =
    let others = linked_calls rest in
    if text_in ins.mnemonic calls_of_mnemonics
    then record {
      ins = ins;
      target = ins.target;
      kind = call_kind (link_register (operand_parts ins)) ins.target;
    }
      ∷ others
    else others

-- A direct jump out of the function.
abbrev leaves : Function → Option ℕ → Bool
leaves fn none = false
leaves fn (some pc) = not (leb fn.start pc && ltb pc (end_of fn))

tail_jumps : Function → List Instruction → List CallSite
tail_jumps fn [] = []
tail_jumps fn (ins ∷ rest) =
    let others = tail_jumps fn rest in
    if text_in ins.mnemonic uncond_jumps && leaves fn ins.target
    then record { ins = ins; target = ins.target; kind = tail_call } ∷ others
    else others

unfoldable pub call_sites : Function → List CallSite
unfolding linked_calls tail_jumps
call_sites fn = linked_calls fn.instructions ++ tail_jumps fn fn.instructions

-- `calls.get(pc)`: a later call of the same target replaces an earlier one.
call_pc : ℕ → List CallSite → Option ℕ
call_pc pc [] = none
call_pc pc (site ∷ sites) =
    let later = call_pc pc sites in
    elim later [
      | some address ↦ some address
      | none ↦ elim site.target [
        | none ↦ none
        | some target ↦ if target == pc then some site.ins.address else none
      ]
    ]

abbrev in_order : Option ℕ → Option ℕ → Option ℕ → Bool
in_order (some a) (some b) (some c) = ltb a b && ltb b c
in_order _ _ _ = false

-- `addressOrderObserved`
unfoldable pub address_order_observed : Function → ℕ → ℕ → ℕ → Bool
unfolding call_pc
address_order_observed root begin hook finish =
    let calls = call_sites root in
    in_order (call_pc begin calls) (call_pc hook calls) (call_pc finish calls)

-- The constants in registers, by the register's name.
abbrev pub Values : Type 0
Values = List (Text × ℤ)

value_of : Text → Values → Option ℤ
value_of name [] = none
value_of name ((key, v) ∷ values) =
    let rest = value_of name values in if codes_eq key name then some v else rest

-- `values.pop(name, None)`
without : Text → Values → Values
without name [] = []
without name ((key, v) ∷ values) =
    let rest = without name values in if codes_eq key name then rest else (key, v) ∷ rest

abbrev caller_saved : List String
caller_saved =
    "ra" ∷ "t0" ∷ "t1" ∷ "t2" ∷ "a0" ∷ "a1" ∷ "a2" ∷ "a3" ∷ "a4" ∷ "a5" ∷ "a6" ∷ "a7" ∷ "t3" ∷ "t4"
    ∷ "t5" ∷ "t6" ∷ []

without_all : List String → Values → Values
unfolding without
without_all [] values = values
without_all (name ∷ names) values = without_all names (without (codes name) values)

-- `n & (2 ** w - 1)` of a Python integer.
low_bits : ℕ → ℤ → ℕ
low_bits w (pos n) = n % 2 ^ w
low_bits w (negsuc n) = 2 ^ w - 1 - n % 2 ^ w

-- `(ins.address + (immediate << 12)) & 0xFFFFFFFF`, with a signed 20-bit immediate: 2 ^ 32 stands
-- for the borrow of a negative one.
auipc_value : ℕ → ℤ → ℤ
unfolding low_bits
auipc_value address n =
    let immediate = low_bits 20 n in
    pos (
      (address
        + (if leb 0x80000 immediate
            then 2 ^ 32 - (0x100000 - immediate) * 4096
            else immediate * 4096))
      % 2 ^ 32)

-- `(immediate << 12) & 0xFFFFFFFF`
lui_value : ℤ → ℤ
unfolding low_bits
lui_value n = pos (low_bits 20 n * 4096)

abbrev map_value : (ℤ → ℤ) → Option ℤ → Option ℤ
map_value f none = none
map_value f (some n) = some (f n)

-- `part.split()[0]`; the text is stripped and so starts with a word, unless it is empty.
first_word : Text → Text
first_word [] = []
first_word (c ∷ text) = let rest = first_word text in if is_space c then [] else c ∷ rest

-- `source_value + int(parts[2].split()[0], 0)`, where the source is known.
abbrev sum_of : ℤ → Text → Outcome (Option ℤ)
sum_of source [] = raised index_error
sum_of source (c ∷ word) =
    ok (map_value (λ n. pos (low_bits 32 (source +ℤ n))) (parse_int (c ∷ word)))

abbrev add_to_source : Option ℤ → Text → Outcome (Option ℤ)
add_to_source none word = ok none
add_to_source (some source) word = sum_of source word

-- The new value of the destination; none where nothing is set, and where a ValueError drops it.
assigned : Instruction → List Text → Option ℤ → Outcome (Option ℤ)
unfolding auipc_value lui_value low_bits first_word
assigned ins (second ∷ []) source =
    if str_eq ins.mnemonic "auipc"
    then ok (map_value (auipc_value ins.address) (parse_int second))
    else if str_eq ins.mnemonic "lui"
    then ok (map_value lui_value (parse_int second))
    else if str_eq ins.mnemonic "li"
    then ok (parse_int second)
    else if str_eq ins.mnemonic "mv"
    then ok source
    else ok none
assigned ins (second ∷ third ∷ []) source =
    if str_eq ins.mnemonic "addi" then add_to_source source (first_word third) else ok none
assigned ins _ source = ok none

abbrev source_of : List Text → Values → Option ℤ
source_of [] values = none
source_of (second ∷ parts) values = value_of (reg second) values

abbrev set_value : Text → Values → Option ℤ → Outcome Values
set_value dest values none = ok values
set_value dest values (some v) = ok ((dest, v) ∷ values)

is_tracked : Text → Bool
is_tracked dest =
    any (λ name. codes_eq dest (codes name)) abi_regs && not (codes_eq dest (codes "zero"))

after_instruction : Instruction → List Text → Values → Outcome Values
unfolding assigned is_tracked value_of without
after_instruction ins [] values = ok values
after_instruction ins (first ∷ parts) values =
    let dest = reg first in
    if is_tracked dest
    then (assigned ins parts (source_of parts values) >>= set_value dest (without dest values))
    else ok values

abbrev splits_control : String → Bool
splits_control m =
    text_in m branches || text_in m uncond_jumps || text_in m ("jr" ∷ "c.jr" ∷ "ret" ∷ "c.ret" ∷ [])

-- The loop up to the call.
constants_at : ℕ → Text → List Instruction → Values → Outcome (Option ℤ)
unfolding after_instruction without_all value_of
constants_at call register [] values = ok (value_of register values)
constants_at call register (ins ∷ rest) values =
    let forgetting = constants_at call register rest (without_all caller_saved values) in
    let tracking =
      after_instruction ins (operand_parts ins) values >>= constants_at call register rest in
    if leb call ins.address
    then ok (value_of register values)
    else if splits_control ins.mnemonic
    then ok none
    else if text_in ins.mnemonic calls_of_mnemonics
    then (if not (str_eq ins.mnemonic "c.jal")
          && codes_eq (link_register (operand_parts ins)) (codes "zero")
        then ok none
        else forgetting)
    else tracking

unfoldable pub callback_argument_value : Function → ℕ → String → Outcome (Option ℤ)
unfolding constants_at
callback_argument_value fn call register = constants_at call (codes register) fn.instructions []

abbrev at : ℕ → String → String → Instruction
at address mnemonic operands = record {
  address = address;
  mnemonic = mnemonic;
  operands = operands;
  target = none;
  size = 4;
}

abbrev body : List Instruction → Function
body instructions = record { name = "f"; start = 0; size = 64; instructions = instructions }

-- A constant built of two parts, one that a call has clobbered, `li` of a negative number, which is
-- not taken modulo 2^32 as the other three are, a branch before the call, and an empty operand.
constants_run :
    (callback_argument_value
        (body (at 0 "lui" "a1, 0x42000" ∷ at 4 "addi" "a1, a1, -16" ∷ []))
        8
        "a1"
      ≡ ok (some (pos 0x41fffff0)))
    × (callback_argument_value (body (at 16 "auipc" "a1, 0xfffff" ∷ [])) 20 "a1"
        ≡ ok (some (pos 0xfffff010)))
    × (callback_argument_value (body (at 0 "li" "a1, 4" ∷ at 4 "jal" "ra, 40" ∷ [])) 8 "a1"
        ≡ ok none)
    × (callback_argument_value (body (at 0 "li" "a1, -1" ∷ [])) 8 "a1" ≡ ok (some (negsuc 0)))
    × (callback_argument_value (body (at 0 "li" "a1, 4" ∷ at 4 "beqz" "a0, 40" ∷ [])) 8 "a1"
        ≡ ok none)
    × (callback_argument_value (body (at 0 "li" "a1, 4" ∷ at 4 "addi" "a1, a1," ∷ [])) 8 "a1"
        ≡ raised index_error)
unfolding callback_argument_value reg operand_parts parse_int codes_eq ◌+ℤ◌ link_register
constants_run = (refl, refl, refl, refl, refl, refl)
