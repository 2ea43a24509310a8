-- ===== src/Interval/Access.antt =====
-- Loads and stores in `Engine.analyze` of
-- Tools/EmbeddedApplicationMacros/initialization_interval.py, with `Program.read`.
pub mod Image
pub mod Sound
pub mod Correct
use Prim.Native.Nat.{bit_and}
use axoloty_embedded.Prelude.{
  ℕ, zero, suc, ◌+◌, ◌-◌, ◌*◌, ◌^◌, ◌%◌, ◌≡◌, refl, Bool, true, false, not, ◌&&◌, ◌||◌, String,
  str_eq, Option, none, some, List, [], ◌∷◌, if◌then◌else◌, any, all, select, leb, ltb, ◌==◌, set,
  take, drop, length, ◌++◌,
}
use axoloty_embedded.Prelude.Int.{ℤ, pos, negsuc, ◌+ℤ◌, ◌-ℤ◌, ltb_ℤ, leb_ℤ}
use axoloty_embedded.Prelude.Text.{codes, starts_with}
use axoloty_embedded.Outcome.{Outcome, ok, raised, rejected, value_error, ◌>>=◌, ◌>>◌, reject_if}
use axoloty_embedded.Stack.Operands.{Text, text_in, parse_int}
use axoloty_embedded.Interval.{
  Values, Place, const, union, arithmetic, is_deep, low_bits, low_word, recall, add_value,
}
use axoloty_embedded.Interval.Registers.{known}
use axoloty_embedded.Interval.Branch.{register, register_operand, operand}
use axoloty_embedded.Interval.Integers.{
  int_and, int_or, int_xor, shift_left, shift_right, less_unsigned, less_signed,
}
use axoloty_embedded.Interval.Alu.{set_register}
use axoloty_embedded.Interval.Offset.{offset_match}

abbrev pub Memory : Type 0
Memory = List (Place × Values)

-- STACK, and the window of a megabyte below it.
abbrev pub stack_top : ℕ
stack_top = 2 ^ 48

abbrev pub stack_low : ℕ
stack_low = 2 ^ 48 - 2 ^ 20

-- A file-backed section of the image.
pub record Section : Type 0 where
  pub start : ℕ
  pub bytes : List ℕ
  pub readonly : Bool

-- `int.from_bytes(…, 'little')`
unfoldable pub little : List ℕ → ℕ
little [] = 0
little (b ∷ bytes) = b + 256 * little bytes

abbrev covers : ℕ → ℕ → Section → Bool
covers address size s =
    s.readonly && leb s.start address && leb (address + size) (s.start + length s.bytes)

abbrev one_match : ℕ → ℕ → List Section → Values
one_match address size (s ∷ []) =
    const (pos (little (take size (drop (address - s.start) s.bytes))))
one_match address size _ = none

-- `Program.read`
unfoldable pub read : List Section → ℤ → ℕ → Values
unfolding little
read sections (pos address) size = one_match address size (select (covers address size) sections)
read sections (negsuc n) size = none

-- A read or write of an absolute address, as `accesses` keeps it.
pub record Access : Type 0 where
  pub pc : ℕ
  pub mnemonic : String
  pub pointer : ℕ
  pub width : ℕ

-- What stands fixed while an instruction is read: its address and name, and the pointer in sp.
pub record Site : Type 0 where
  pub sections : List Section
  pub pc : ℕ
  pub mnemonic : String
  pub sp : ℤ

pub record Effect : Type 0 where
  pub regs : List Values
  pub memory : Memory
  pub accesses : List Access

abbrev pub below_stack : ℤ → ℤ → Bool
below_stack sp pointer = leb_ℤ (pos stack_low) pointer && ltb_ℤ pointer sp

abbrev pub inside_stack : ℤ → Bool
inside_stack pointer = leb_ℤ (pos stack_low) pointer && leb_ℤ pointer (pos stack_top)

abbrev pub word_access : Site → ℕ → ℤ → List Access
word_access site size (pos pointer) =
    if ltb pointer (2 ^ 32)
    then record { pc = site.pc; mnemonic = site.mnemonic; pointer = pointer; width = size } ∷ []
    else []
word_access site size (negsuc n) = []

abbrev pub word_accesses : Site → ℕ → List ℤ → List Access
word_accesses site size [] = []
word_accesses site size (pointer ∷ rest) =
    word_access site size pointer ++ word_accesses site size rest

matched : Option (ℤ × Text) → Outcome (ℤ × Text)
matched none = raised (rejected "unsupported memory operand at %s")
matched (some found) = ok found

-- Base register plus offset.
unfoldable pub addresses_of : List Text → List Values → Outcome Values
unfolding matched
addresses_of op regs = do
  text ← operand op 1
  found ← matched (offset_match text)
  r ← register found.1
  ok (arithmetic (known regs r) (const found.0) ◌+ℤ◌)

abbrev pub check_pointers : ℤ → Values → Outcome (Unit {0})
check_pointers sp none = ok tt
check_pointers sp (some pointers) =
    reject_if (any (below_stack sp) pointers) "memory access below allocated stack at %s"

abbrev pub accesses_at : Site → ℕ → Values → List Access
accesses_at site size none = []
accesses_at site size (some pointers) = word_accesses site size pointers

abbrev pub or_read : Option Values → Values → Values
or_read none values = values
or_read (some v) values = v

-- `mem.get((ptr, size), self.p.read(ptr, size))`
abbrev pub fetched : Site → Memory → ℕ → ℤ → Values
fetched site memory size pointer =
    or_read (recall (pointer, size) memory) (read site.sections pointer size)

unfoldable pub fetched_any : Site → Memory → ℕ → Values → List ℤ → Values
fetched_any site memory size value [] = value
fetched_any site memory size value (pointer ∷ rest) =
    fetched_any site memory size (union value (fetched site memory size pointer)) rest

abbrev pub loaded : Site → Memory → ℕ → Values → Values
loaded site memory size none = none
loaded site memory size (some []) = none
loaded site memory size (some (pointer ∷ rest)) =
    fetched_any site memory size (fetched site memory size pointer) rest

-- `(v if v < (1<<(bits-1)) else v-(1<<bits)) & 0xffffffff`
abbrev pub extended : ℕ → ℤ → ℤ
extended size v =
    if ltb_ℤ v (pos (2 ^ (size * 8 - 1))) then low_word v else low_word (v -ℤ pos (2 ^ (size * 8)))

unfoldable pub extend_all : ℕ → List ℤ → List ℤ
extend_all size [] = []
extend_all size (v ∷ vs) = add_value (extended size v) (extend_all size vs)

abbrev pub extend : Bool → ℕ → Values → Values
extend true size (some vs) = some (extend_all size vs)
extend sign size value = value

abbrev pub sign_extending : String → Bool
sign_extending m = text_in m ("lb" ∷ "lh" ∷ [])

-- A load of `size` bytes.
unfoldable pub load : Site → ℕ → List Text → List Values → Memory → Outcome Effect
load site size op regs memory = do
  pointers ← addresses_of op regs
  check_pointers site.sp pointers
  dest ← register_operand op 0
  ok (record {
    regs =
        set_register dest
          (extend (sign_extending site.mnemonic) size (loaded site memory size pointers)) regs;
    memory = memory;
    accesses = accesses_at site size pointers;
  })

-- `old < ptr+size and ptr < old+width`
abbrev pub overlaps : Place → Place → Bool
overlaps a b = ltb_ℤ a.0 (b.0 +ℤ pos b.1) && ltb_ℤ b.0 (a.0 +ℤ pos a.1)

unfoldable pub forget : Place → Memory → Memory
forget place [] = []
forget place ((k, v) ∷ memory) =
    let rest = forget place memory in if overlaps k place then rest else (k, v) ∷ rest

-- Facts are kept of private stack slots alone.
abbrev pub stored : ℕ → Values → Values → Memory → Memory
stored size value (some (pointer ∷ [])) memory =
    if inside_stack pointer
    then ((pointer, size), value) ∷ forget (pointer, size) memory
    else memory
stored size value _ memory = memory

-- The values of the source register, which is read only for a store to one private slot.
abbrev pub stored_values : List Text → List Values → Values → Outcome Values
stored_values op regs (some (pointer ∷ [])) =
    if inside_stack pointer then (register_operand op 0 >>= λ r. ok (known regs r)) else ok none
stored_values op regs _ = ok none

-- A store of `size` bytes.
unfoldable pub store : Site → ℕ → List Text → List Values → Memory → Outcome Effect
store site size op regs memory = do
  pointers ← addresses_of op regs
  check_pointers site.sp pointers
  source ← stored_values op regs pointers
  ok (record {
    regs = regs;
    memory = stored size source pointers memory;
    accesses = accesses_at site size pointers;
  })
