-- ===== src/Interval/Transfer/Correct.antt =====
-- A data instruction as a whole, and the result of an instruction that computes one value from two.
use axoloty_embedded.Prelude.{
  ◌≡◌, refl, Bool, true, false, not, List, ℕ, length, ◌&&◌, ◌==◌, ◌≢◌, not-false, ◌∷◌, [], none,
  some, inl,
}
use mathlib.Core.Path.{subst}
use axoloty_embedded.Prelude.Int.{ℤ}
use axoloty_embedded.Outcome.{ok, >>=-eq-ok, ok-eq, reject_if-eq-ok}
use axoloty_embedded.Stack.Operands.{Text}
use axoloty_embedded.Interval.{Values, operate, arithmetic, none, some, const}
use axoloty_embedded.Interval.Sound.{May, Describes}
use axoloty_embedded.Interval.Transfer.{
  Kind, step_kind, data_step, kind_of, Site, binary, Memory, Effect, known, memory_store, alu,
  shifts, is_known, mask, load_upper, add_upper, load_immediate, move_register, no_effect, unknown,
  unknown_but_sp, integer, unsupported,
}
use axoloty_embedded.Interval.Transfer.Sound.{
  Keeps, registers_only-Keeps, load-Keeps, store-Keeps, write_immediate-Preserves, move-Preserves,
  lose-Preserves, lose_but_sp-Preserves, binary-Preserves, shift-Preserves, mask_step-Preserves,
}
use axoloty_embedded.Interval.Alu.{
  right_values, binary_operands, last_operand, binary, source_register, is_single, integer,
}
use axoloty_embedded.Interval.Branch.{register, register_operand}
use axoloty_embedded.Interval.Registers.{In-holds, Describes-known, known, held}
use axoloty_embedded.Interval.Access.Sound.{write, set_register-Describes}
use axoloty_embedded.Interval.Integers.{arithmetic-May}

step_kind-Keeps :
    (kind : Kind) (site : Site) (op : List Text) (regs : List Values) (memory : Memory)
    (effect : Effect)
    → step_kind kind site op regs memory ≡ ok effect
    → Keeps regs effect.regs
unfolding step_kind
step_kind-Keeps (Kind.memory_load size) site op regs memory effect h =
    load-Keeps site size op regs memory effect h
step_kind-Keeps (memory_store size) site op regs memory effect h =
    store-Keeps site size op regs memory effect h
step_kind-Keeps load_upper site op regs memory effect h =
    registers_only-Keeps memory regs _ effect (write_immediate-Preserves _ op regs) h
step_kind-Keeps add_upper site op regs memory effect h =
    registers_only-Keeps memory regs _ effect (write_immediate-Preserves _ op regs) h
step_kind-Keeps load_immediate site op regs memory effect h =
    registers_only-Keeps memory regs _ effect (write_immediate-Preserves _ op regs) h
step_kind-Keeps move_register site op regs memory effect h =
    registers_only-Keeps memory regs _ effect (move-Preserves op regs) h
step_kind-Keeps (alu f immediate compressed) site op regs memory effect h =
    registers_only-Keeps memory regs _ effect (binary-Preserves f immediate compressed op regs) h
step_kind-Keeps (shifts f compressed) site op regs memory effect h =
    registers_only-Keeps memory regs _ effect (shift-Preserves f compressed op regs) h
step_kind-Keeps (mask compressed) site op regs memory effect h =
    registers_only-Keeps memory regs _ effect (mask_step-Preserves compressed op regs) h
step_kind-Keeps no_effect site op regs memory effect h =
    registers_only-Keeps memory regs (ok regs) effect
      (λ later e. subst (Keeps regs) (ok-eq e) (refl, refl)) h
step_kind-Keeps unknown site op regs memory effect h =
    registers_only-Keeps memory regs _ effect (lose-Preserves op regs) h
step_kind-Keeps unknown_but_sp site op regs memory effect h =
    registers_only-Keeps memory regs _ effect (lose_but_sp-Preserves op regs) h
step_kind-Keeps unsupported site op regs memory effect h = absurd (cc)

is_known-ne : (a : Values) → is_known a ≡ true → a ≢ none
is_known-ne none t e = cc
is_known-ne (some vs) t e = cc

-- If a data instruction is followed, whatever its name and its operands are, then there are as many
-- registers as before, x0 has the value that it had, and the value of sp is not TOP.
pub data_step-Keeps :
    (site : Site) (op : List Text) (regs : List Values) (memory : Memory) (effect : Effect)
    → data_step site op regs memory ≡ ok effect
    → (length effect.regs ≡ length regs)
      × (known effect.regs 0 ≡ known regs 0)
      × (known effect.regs 2 ≢ none)
unfolding data_step
data_step-Keeps site op regs memory effect h =
    let (e, he, h₁) = >>=-eq-ok (step_kind (kind_of site.mnemonic) site op regs memory) _ h in
    let (fine, h₂) = reject_if-eq-ok (not (is_known (known e.regs 2))) _ _ h₁ in
    let q = ok-eq h₂ in
    let kept = step_kind-Keeps (kind_of site.mnemonic) site op regs memory e he in
    let known_sp = is_known-ne (known e.regs 2) (not-false _ fine) in
    subst
      (λ (x : Effect).
        (length x.regs ≡ length regs) × (known x.regs 0 ≡ known regs 0) × (known x.regs 2 ≢ none))
      q (kept.0, kept.1, known_sp)

-- The right operand of the machine: the immediate, or what the last register holds.
abbrev pub RightValue : Bool → List Text → List ℤ → ℤ → Type 0
RightValue true op vs y = integer (last_operand op) ≡ ok y
RightValue false op vs y = (r : ℕ) × (register (last_operand op) ≡ ok r) × (y ≡ held vs r)

right_values-May :
    (immediate : Bool) (op : List Text) (regs : List Values) (vs : List ℤ) (y : ℤ)
    → Describes regs vs
    → RightValue immediate op vs y
    → (a : Values) × (right_values immediate op regs ≡ ok a) × May y a
right_values-May true op regs vs y d e = (const y, rw e refl, In-holds y (y ∷ []) (inl refl))
right_values-May false op regs vs y d (r, e, q) =
    (known regs r, rw e refl, rw q (Describes-known regs vs r d))

-- If `binary` returns and the registers describe the machine's, then the registers that it returns
-- describe those behind the instruction: its destination, unless it is x0, holds the result of the
-- operation on what the source register holds and on the immediate or the last register's value,
-- cut to a word where both are below 2^32 in absolute value.
pub binary-Describes :
    (f : ℤ → ℤ → ℤ) (immediate compressed : Bool) (op : List Text) (regs later : List Values)
    (vs : List ℤ) (dest source : ℕ) (y : ℤ)
    → binary f immediate compressed op regs ≡ ok later
    → register_operand op 0 ≡ ok dest
    → source_register compressed dest op ≡ ok source
    → RightValue immediate op vs y
    → Describes regs vs
    → Describes later (write dest (operate f (held vs source) y) vs)
unfolding binary binary_operands
binary-Describes f immediate compressed op regs later vs dest source y h hd hs r d =
    let (right, hr, m) = right_values-May immediate op regs vs y d r in
    let h₁ = rw (hd, hs, hr) at h in
    let a = arithmetic (known regs source) right f in
    let (fine, h₂) = reject_if-eq-ok (dest == 2 && not (is_single a)) _ _ h₁ in
    let value = operate f (held vs source) y in
    subst (λ (x : List Values). Describes x (write dest value vs)) (ok-eq h₂)
      (set_register-Describes regs vs dest a value d (
        arithmetic-May f (held vs source) y (known regs source) right
          (Describes-known regs vs source d) m))
