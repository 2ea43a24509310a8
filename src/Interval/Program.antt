-- ===== src/Interval/Program.antt =====
-- `Program.function` of Tools/EmbeddedApplicationMacros/initialization_interval.py: the function
-- that owns an address, checked against the bytes of the image before it is used.
pub mod Validated
use axoloty_embedded.Prelude.{
  ℕ, suc, ◌+◌, ◌≡◌, refl, Bool, true, false, not, ◌&&◌, ◌||◌, String, str_eq, Option, none, some,
  List, [], ◌∷◌, ◌++◌, map, if◌then◌else◌, any, leb, ltb, ◌==◌, select, sort_by, min, ◌-◌,
}
use axoloty_embedded.Prelude.Text.{codes, codes_eq}
use axoloty_embedded.Outcome.{Outcome, ok, raised, rejected, type_error, ◌>>=◌, ◌>>◌, reject_if}
use axoloty_embedded.Stack.Instruction.{Instruction, Function, end_of}
use axoloty_embedded.Stack.Flow.{member}
use axoloty_embedded.Stack.Linked.{Encoded, Executable, holds_instruction, bytes_match, size_of}
use axoloty_embedded.Interval.Access.{Section}
use axoloty_embedded.Interval.Branch.{operands, operand}

-- The tables of the two images. `functions` and `owners` are dictionaries, `validated` is a set;
-- `instructions` is a dictionary from the addresses of its instructions. `validate` is
-- `validate_linked_inputs` on the ELF file of a function, which raises or returns.
pub record Program : Type 0 where
  pub functions : List (ℕ × Function)
  pub owners : List (ℕ × Function)
  pub validated : List ℕ
  pub instructions : List Encoded
  pub executable : List Executable
  pub sections : List Section
  pub rom_memcpy : ℕ
  pub validate : Function → Outcome (Unit {0})

unfoldable pub at_address : ℕ → List (ℕ × Function) → Option Function
at_address address [] = none
at_address address ((key, fn) ∷ rest) =
    let later = at_address address rest in if key == address then some fn else later

unfoldable pub encoded_at : ℕ → List Encoded → Option Encoded
encoded_at address [] = none
encoded_at address (e ∷ rest) =
    let later = encoded_at address rest in if e.ins.address == address then some e else later

abbrev pub owns : ℕ → Function → Bool
owns address fn = leb fn.start address && ltb address (end_of fn)

abbrev functions_of : Program → List Function
functions_of p = map (λ entry. entry.1) p.functions

abbrev encoding_of : Encoded → Outcome (List ℕ)
encoding_of e = elim e.encoding [ none ↦ raised type_error | some bytes ↦ ok bytes ]

-- The bytes of the image at an instruction are its encoding, which has as many bytes as the
-- instruction, and one range alone holds it.
abbrev pub match_in : Encoded → List Executable → Outcome Bool
match_in e (item ∷ []) = do bytes ← encoding_of e; ok (bytes_match item e.ins.address bytes)
match_in e _ = ok false

abbrev pub image_match : Program → Encoded → Outcome Bool
image_match p e = match_in e (select (holds_instruction e.ins.address e.ins.size) p.executable)

-- A jump of four bytes that links nothing.
abbrev first_is_zero : List (List ℕ) → Bool
first_is_zero [] = false
first_is_zero (part ∷ parts) = codes_eq part (codes "x0")

abbrev is_vector : Encoded → Bool
is_vector e = str_eq e.ins.mnemonic "jal" && (first_is_zero (operands e.ins) && e.ins.size == 4)

abbrev pub remember : Function → Program → Program
remember fn p = record p {
  functions = (fn.start, fn) ∷ p.functions;
  validated = fn.start ∷ p.validated;
}

abbrev vector_at : ℕ → Encoded → Function
vector_at address e = record {
  name = "vector@%s";
  start = address;
  size = 4;
  instructions = e.ins ∷ [];
}

least : ℕ → List ℕ → ℕ
least n [] = n
least n (m ∷ ms) = least (min n m) ms

-- `min(stops) if stops else address`
abbrev least_or : ℕ → List ℕ → ℕ
least_or address [] = address
least_or address (n ∷ ns) = least n ns

abbrev in_range : ℕ → Executable → Bool
in_range address item = leb item.first address && ltb address item.last

-- The next start of a function, or the end of the executable range.
gap_end : Program → ℕ → ℕ
unfolding least
gap_end p address = least_or address (
    select (ltb address) (map (λ (fn : Function). fn.start) (functions_of p))
    ++ map (λ (item : Executable). item.last) (select (in_range address) p.executable))

abbrev pub by_pc : Encoded → Encoded → Bool
by_pc a b = leb a.ins.address b.ins.address

gap_body : Program → ℕ → ℕ → List Encoded
gap_body p address finish =
    select (λ e. leb address e.ins.address && ltb e.ins.address finish)
      (sort_by by_pc p.instructions)

-- The walk with the cursor; it returns the cursor.
unfoldable pub gap_cursor : Program → ℕ → List Encoded → Outcome ℕ
gap_cursor p cursor [] = ok cursor
gap_cursor p cursor (e ∷ rest) = do
  reject_if (not (e.ins.address == cursor)) "truncated anonymous executable gap"
  matches ← image_match p e
  reject_if (not matches) "anonymous helper byte mismatch"
  gap_cursor p (cursor + e.ins.size) rest

abbrev anonymous_at : ℕ → ℕ → List Encoded → Function
anonymous_at address size body = record {
  name = "anonymous@%s";
  start = address;
  size = size;
  instructions = map (λ e. e.ins) body;
}

unfoldable pub gap_function : Program → ℕ → Outcome (Program × Function)
unfolding gap_end gap_body
gap_function p address = do
  let finish = gap_end p address
  let body = gap_body p address finish
  cursor ← gap_cursor p address body
  reject_if (not (cursor == finish)) "incomplete anonymous executable gap"
  let fn = anonymous_at address (finish - address) body
  ok (remember fn p, fn)

abbrev is_decoded : Option Encoded → Bool
is_decoded none = false
is_decoded (some e) = true

unfoldable pub helper_function : Program → ℕ → Outcome (Program × Function)
helper_function p address =
    if member address (map end_of (functions_of p))
      && is_decoded (encoded_at address p.instructions)
    then gap_function p address
    else raised (rejected "missing STT_FUNC body at %s")

abbrev vector_or_helper : Program → ℕ → Encoded → Bool → Outcome (Program × Function)
vector_or_helper p address e true = let fn = vector_at address e in ok (remember fn p, fn)
vector_or_helper p address e false = helper_function p address

-- No function holds the address.
unfoldable pub uncontained : Program → ℕ → Option Encoded → Outcome (Program × Function)
uncontained p address none = helper_function p address
uncontained p address (some e) =
    if is_vector e
    then image_match p e >>= vector_or_helper p address e
    else helper_function p address

smallest : Function → List Function → Function
smallest fn [] = fn
smallest fn (other ∷ rest) = smallest (if ltb other.size fn.size then other else fn) rest

abbrev own : ℕ → Function → Program → Program
own address fn p = record p { owners = (address, fn) ∷ p.owners }

-- A function is validated when it is first reached.
unfoldable pub admit : Program → ℕ → Function → Outcome (Program × Function)
admit p address fn =
    if member fn.start p.validated
    then ok (own address fn p, fn)
    else p.validate fn >> ok (own address fn (record p { validated = fn.start ∷ p.validated }), fn)

unfoldable pub contained : Program → ℕ → List Function → Outcome (Program × Function)
unfolding smallest
contained p address [] = uncontained p address (encoded_at address p.instructions)
contained p address (fn ∷ rest) = admit p address (smallest fn rest)

abbrev or_else : Option Function → Option Function → Option Function
or_else none other = other
or_else (some fn) other = some fn

abbrev from_tables : Program → ℕ → Option Function → Outcome (Program × Function)
from_tables p address none = contained p address (select (owns address) (functions_of p))
from_tables p address (some fn) = admit p address fn

-- `function`
unfoldable pub function : Program → ℕ → Outcome (Program × Function)
function p address =
    from_tables p address (or_else (at_address address p.functions) (at_address address p.owners))
