-- ===== src/Interval/Transfer/Sound.antt =====
-- What every data instruction keeps, and the instructions that compute one value from two.
use axoloty_embedded.Prelude.{
  ℕ, zero, suc, ◌≡◌, refl, Bool, true, false, not, none, List, [], ◌∷◌, length, ◌==◌, set,
  Bool-cases, inl, inr, arith, ◌&&◌,
}
use mathlib.Core.Path.{subst}
use axoloty_embedded.Prelude.Int.{ℤ}
use axoloty_embedded.Outcome.{Outcome, ok, raised, >>=-eq-ok, ok-eq, reject_if-eq-ok}
use axoloty_embedded.Stack.Operands.{Text}
use axoloty_embedded.Interval.{Values, arithmetic, const}
use axoloty_embedded.Interval.Registers.{known}
use axoloty_embedded.Interval.Branch.{operand, register_operand}
use axoloty_embedded.Interval.Alu.{
  set_register, binary, binary_operands, finish_binary, shift, mask_step, masked, integer,
  is_single, negative_shift, last_operand, source_register,
}
use axoloty_embedded.Interval.Access.{
  Memory, Site, Effect, load, store, addresses_of, check_pointers, extend, stored_values,
  sign_extending, loaded,
}
use axoloty_embedded.Interval.Transfer.{registers_only, write_immediate, move, lose, lose_but_sp}

-- The number of registers and the value of x0 are as before.
abbrev pub Keeps : List Values → List Values → Type 0
Keeps regs later = (length later ≡ length regs) × (known later 0 ≡ known regs 0)

length-set : (regs : List Values) (r : ℕ) (a : Values) → length (set regs r a) ≡ length regs
length-set [] r a = refl
length-set (b ∷ regs) zero a = refl
length-set (b ∷ regs) (suc r) a = omega (arith, length-set regs r a)

known-set_later :
    (regs : List Values) (r : ℕ) (a : Values)
    → (r == 0) ≡ false
    → known (set regs r a) 0 ≡ known regs 0
known-set_later [] r a h = refl
known-set_later (b ∷ regs) zero a h = absurd (cc)
known-set_later (b ∷ regs) (suc r) a h = refl

pub set_register-Keeps :
    (r : ℕ) (a : Values) (regs : List Values) → Keeps regs (set_register r a regs)
set_register-Keeps r a regs = elim (Bool-cases (r == 0)) [
  | inl e ↦ rw e (refl, refl)
  | inr e ↦ rw e (length-set regs r a, known-set_later regs r a e)
]

-- An outcome that keeps them.
abbrev Preserves : List Values → Outcome (List Values) → Type 0
Preserves regs run = (later : List Values) → run ≡ ok later → Keeps regs later

pub write_immediate-Preserves :
    (value : ℤ → ℤ) (op : List Text) (regs : List Values)
    → Preserves regs (write_immediate value op regs)
unfolding write_immediate
write_immediate-Preserves value op regs later h =
    let (r, hr, h₁) = >>=-eq-ok (register_operand op 0) _ h in
    let (t, ht, h₂) = >>=-eq-ok (operand op 1) _ h₁ in
    let (n, hn, h₃) = >>=-eq-ok (integer t) _ h₂ in
    subst (Keeps regs) (ok-eq h₃) (set_register-Keeps r (const (value n)) regs)

pub move-Preserves : (op : List Text) (regs : List Values) → Preserves regs (move op regs)
unfolding move
move-Preserves op regs later h =
    let (r, hr, h₁) = >>=-eq-ok (register_operand op 0) _ h in
    let (s, hs, h₂) = >>=-eq-ok (register_operand op 1) _ h₁ in
    subst (Keeps regs) (ok-eq h₂) (set_register-Keeps r (known regs s) regs)

pub lose-Preserves : (op : List Text) (regs : List Values) → Preserves regs (lose op regs)
unfolding lose
lose-Preserves op regs later h =
    let (r, hr, h₁) = >>=-eq-ok (register_operand op 0) _ h in
    subst (Keeps regs) (ok-eq h₁) (set_register-Keeps r none regs)

pub lose_but_sp-Preserves :
    (op : List Text) (regs : List Values) → Preserves regs (lose_but_sp op regs)
unfolding lose_but_sp
lose_but_sp-Preserves op regs later h =
    let (r, hr, h₁) = >>=-eq-ok (register_operand op 0) _ h in
    let (other, h₂) = reject_if-eq-ok (r == 2) _ _ h₁ in
    subst (Keeps regs) (ok-eq h₂) (set_register-Keeps r none regs)

pub finish_binary-Preserves :
    (r : ℕ) (a : Values) (regs : List Values) → Preserves regs (finish_binary r a regs)
finish_binary-Preserves r a regs later h =
    let (fine, h₁) = reject_if-eq-ok (r == 2 && not (is_single a)) _ _ h in
    subst (Keeps regs) (ok-eq h₁) (set_register-Keeps r a regs)

pub binary-Preserves :
    (f : ℤ → ℤ → ℤ) (immediate compressed : Bool) (op : List Text) (regs : List Values)
    → Preserves regs (binary f immediate compressed op regs)
unfolding binary
binary-Preserves f immediate compressed op regs later h =
    let (b, hb, h₁) = >>=-eq-ok (binary_operands immediate compressed op regs) _ h in
    finish_binary-Preserves b.dest (arithmetic b.left b.right f) regs later h₁

pub shift-Preserves :
    (f : ℤ → ℤ → ℤ) (compressed : Bool) (op : List Text) (regs : List Values)
    → Preserves regs (shift f compressed op regs)
unfolding shift
shift-Preserves f compressed op regs later h =
    let (b, hb, h₁) = >>=-eq-ok (binary_operands true compressed op regs) _ h in
    let (u, hu, h₂) = >>=-eq-ok (negative_shift b.left b.right) _ h₁ in
    finish_binary-Preserves b.dest (arithmetic b.left b.right f) regs later h₂

pub mask_step-Preserves :
    (compressed : Bool) (op : List Text) (regs : List Values)
    → Preserves regs (mask_step compressed op regs)
unfolding mask_step
mask_step-Preserves compressed op regs later h =
    let (r, hr, h₁) = >>=-eq-ok (register_operand op 0) _ h in
    let (other, h₂) = reject_if-eq-ok (r == 2) _ _ h₁ in
    let (n, hn, h₃) = >>=-eq-ok (integer (last_operand op)) _ h₂ in
    let (s, hs, h₄) = >>=-eq-ok (source_register compressed r op) _ h₃ in
    subst (Keeps regs) (ok-eq h₄) (set_register-Keeps r (masked n (known regs s)) regs)

pub registers_only-Keeps :
    (memory : Memory) (regs : List Values) (run : Outcome (List Values)) (effect : Effect)
    → Preserves regs run
    → registers_only memory run ≡ ok effect
    → Keeps regs effect.regs
unfolding registers_only
registers_only-Keeps memory regs (raised e) effect p h = absurd (cc)
registers_only-Keeps memory regs (ok later) effect p h =
    subst (λ (x : Effect). Keeps regs x.regs) (ok-eq h) (p later refl)

pub load-Keeps :
    (site : Site) (size : ℕ) (op : List Text) (regs : List Values) (memory : Memory)
    (effect : Effect)
    → load site size op regs memory ≡ ok effect
    → Keeps regs effect.regs
unfolding load
load-Keeps site size op regs memory effect h =
    let (p, hp, h₁) = >>=-eq-ok (addresses_of op regs) _ h in
    let (c, hc, h₂) = >>=-eq-ok (check_pointers site.sp p) _ h₁ in
    let (r, hr, h₃) = >>=-eq-ok (register_operand op 0) _ h₂ in
    subst (λ (x : Effect). Keeps regs x.regs) (ok-eq h₃)
      (set_register-Keeps r (extend (sign_extending site.mnemonic) size (loaded site memory size p))
        regs)

pub store-Keeps :
    (site : Site) (size : ℕ) (op : List Text) (regs : List Values) (memory : Memory)
    (effect : Effect)
    → store site size op regs memory ≡ ok effect
    → Keeps regs effect.regs
unfolding store
store-Keeps site size op regs memory effect h =
    let (p, hp, h₁) = >>=-eq-ok (addresses_of op regs) _ h in
    let (c, hc, h₂) = >>=-eq-ok (check_pointers site.sp p) _ h₁ in
    let (v, hv, h₃) = >>=-eq-ok (stored_values op regs p) _ h₂ in
    subst (λ (x : Effect). Keeps regs x.regs) (ok-eq h₃) (refl, refl)
