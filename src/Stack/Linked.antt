-- ===== src/Stack/Linked.antt =====
-- The tests on one function in `validate_linked_inputs` of
-- Tools/EmbeddedApplicationMacros/first_init_stack.py: its disassembly has the bytes of the image,
-- and covers the function without a gap.
use axoloty_embedded.Prelude.{
  ℕ, suc, ◌+◌, ◌≡◌, ◌≤◌, ◌<◌, Bool, true, not, ◌&&◌, Option, none, some, List, [], ◌∷◌, any, leb,
  ltb, ◌==◌, select, sort_by, arith, map,
}
use axoloty_embedded.Prelude.{Bool-cases, inl, inr, sym, ◌∙◌, any-sort_by}
use axoloty_embedded.Outcome.{
  Outcome, ok, raised, rejected, ◌>>◌, reject_if, >>=-eq-ok, reject_if-eq-ok,
}
use axoloty_embedded.Stack.Instruction.{Instruction, Function, end_of}
use axoloty_embedded.Stack.Flow.{member}

-- An instruction with the bytes of its encoding, in the order of memory; none where the listing
-- has no encoding. The hexadecimal text of the listing is the same bytes, the last one first.
pub record Encoded : Type 0 where
  pub ins : Instruction
  pub encoding : Option (List ℕ)

-- An executable range of the image, with its bytes.
pub record Executable : Type 0 where
  pub first : ℕ
  pub last : ℕ
  pub contents : ℕ → ℕ

abbrev pub size_of : List ℕ → ℕ
size_of [] = 0
size_of (b ∷ bytes) = suc (size_of bytes)

abbrev pub holds_instruction : ℕ → ℕ → Executable → Bool
holds_instruction address size item = leb item.first address && leb (address + size) item.last

-- The bytes from an address on.
unfoldable pub bytes_match : Executable → ℕ → List ℕ → Bool
bytes_match item address [] = true
bytes_match item address (b ∷ bytes) =
    item.contents address == b && bytes_match item (suc address) bytes

abbrev one_range : ℕ → List ℕ → List Executable → Outcome (Unit {0})
one_range address bytes (item ∷ []) =
    reject_if (not (bytes_match item address bytes)) "disassembly encoding mismatch at 0x%x"
one_range address bytes _ =
    raised (rejected "instruction address 0x%x is not uniquely inside executable ELF bytes")

abbrev check_encoding : List Executable → ℕ → Option (List ℕ) → Outcome (Unit {0})
check_encoding executable address none = raised (rejected "missing instruction encoding at 0x%x")
check_encoding executable address (some bytes) =
    one_range address bytes (select (holds_instruction address (size_of bytes)) executable)

-- The loop over the listing; `pcs` holds the addresses before.
unfoldable pub check_listing : List Executable → List ℕ → List Encoded → Outcome (Unit {0})
check_listing executable pcs [] = ok tt
check_listing executable pcs (e ∷ rest) = do
  reject_if (member e.ins.address pcs) "duplicate instruction address 0x%x in %s"
  check_encoding executable e.ins.address e.encoding
  check_listing executable (e.ins.address ∷ pcs) rest

-- The walk with the cursor over the sorted instructions.
unfoldable pub tiles : ℕ → ℕ → List Instruction → Outcome (Unit {0})
tiles finish cursor [] =
    reject_if (not (cursor == finish))
      "disassembly leaves trailing function bytes uncovered at 0x%x in %s"
tiles finish cursor (ins ∷ rest) = do
  reject_if (not (ins.address == cursor))
      "disassembly leaves function bytes uncovered at 0x%x in %s"
  tiles finish (cursor + ins.size) rest

abbrev by_address : Instruction → Instruction → Bool
by_address a b = leb a.address b.address

-- The tests on a function whose extent in the image is `extent`.
unfoldable pub check_function : List Executable → ℕ → Function → List Encoded → Outcome (Unit {0})
check_function executable extent fn listing = do
  reject_if (not (extent == fn.size))
      "analyzed function extent does not match the largest ELF symbol range at 0x%x"
  check_listing executable [] listing
  tiles (end_of fn) fn.start (sort_by by_address (map (λ e. e.ins) listing))

abbrev pub lies_in : ℕ → Instruction → Bool
lies_in n ins = leb ins.address n && ltb n (ins.address + ins.size)

tiles-cover :
    (finish cursor : ℕ) (body : List Instruction)
    → tiles finish cursor body ≡ ok tt
    → (n : ℕ) → cursor ≤ n
    → n < finish
    → any (lies_in n) body ≡ true
unfolding tiles
tiles-cover finish cursor [] h n a b = ground arith
tiles-cover finish cursor (ins ∷ body) h n a b =
    let (near, k) = reject_if-eq-ok (not (ins.address == cursor)) _ _ h in
    elim (Bool-cases (ltb n (cursor + ins.size))) [
      | inl e ↦ ground arith
      | inr e ↦
          let later = tiles-cover finish (cursor + ins.size) body k n (ground arith) b in
          ground arith
    ]

-- If the tests on a function pass, then every address of the function lies in an instruction of the
-- listing.
pub check_function-covers :
    (executable : List Executable) (extent : ℕ) (fn : Function) (listing : List Encoded)
    → check_function executable extent fn listing ≡ ok tt
    → (n : ℕ) → fn.start ≤ n
    → n < end_of fn
    → any (lies_in n) (map (λ e. e.ins) listing) ≡ true
unfolding check_function
check_function-covers executable extent fn listing h n a b =
    let (same, h₁) = reject_if-eq-ok _ _ _ h in
    let (done, p, h₂) = >>=-eq-ok (check_listing executable [] listing) _ h₁ in
    sym (any-sort_by by_address (lies_in n) (map (λ e. e.ins) listing))
    ∙ tiles-cover (end_of fn) fn.start (sort_by by_address (map (λ e. e.ins) listing)) h₂ n a b
