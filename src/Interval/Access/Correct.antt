-- ===== src/Interval/Access/Correct.antt =====
-- A load and a store on a machine that the abstract state describes.
use axoloty_embedded.Prelude.{ℕ, ◌≡◌, refl, true, false, some, List, [], ◌∷◌, ap, sym}
use mathlib.Core.Path.{subst}
use axoloty_embedded.Prelude.Int.{ℤ, ◌+ℤ◌}
use axoloty_embedded.Outcome.{ok, >>=-eq-ok, ok-eq}
use axoloty_embedded.Stack.Operands.{Text}
use axoloty_embedded.Interval.{Values, Place, operate}
use axoloty_embedded.Interval.Sound.{Describes, May}
use axoloty_embedded.Interval.Registers.{held, known, Describes-known}
use axoloty_embedded.Interval.Branch.{operand, register_operand, register}
use axoloty_embedded.Interval.Offset.{offset_match}
use axoloty_embedded.Interval.Access.{
  Memory, Site, Effect, load, store, addresses_of, sign_extending, inside_stack, overlaps, loaded,
  extend, check_pointers, stored_values,
}
use axoloty_embedded.Interval.Access.Sound.{
  Recalls, write, addresses_of-May, loaded-May, extend-May, stored-Recalls, set_register-Describes,
}
use axoloty_embedded.Interval.Access.Image.{Immutable, Receives, received-Receives}

-- The operand of a machine's access, decoded: the base register and the offset.
abbrev pub Points : List Text → ℕ → ℤ → Type 0
Points op base offset =
    (text : Text) × (name : Text) × (operand op 1 ≡ ok text)
    × (offset_match text ≡ some (offset, name))
    × (register name ≡ ok base)

-- If `load` returns, the registers describe the machine's registers, the facts hold in its memory,
-- and the machine has the bytes of the image in all places of a read-only section, little end first,
-- then the new registers describe those of the machine behind the load: its destination, unless it
-- is x0, holds what stands at base plus offset, where lb extends the sign of a byte, lh that of a
-- half word, and every other load puts the value there as it is.
pub load-Describes :
    (site : Site) (size : ℕ) (op : List Text) (regs : List Values) (memory : Memory)
    (effect : Effect) (vs : List ℤ) (actual : Place → ℤ) (base dest : ℕ) (offset w : ℤ)
    → load site size op regs memory ≡ ok effect
    → Points op base offset
    → register_operand op 0 ≡ ok dest
    → Describes regs vs
    → Recalls memory actual
    → Immutable site.sections actual
    → Receives site.mnemonic size (actual (operate ◌+ℤ◌ (held vs base) offset, size)) w
    → Describes effect.regs (write dest w vs)
unfolding load
load-Describes site size op regs memory effect vs actual base dest offset w h (text, name, t, o, n)
      d s r i m =
    let (pointers, hp, h₁) = >>=-eq-ok (addresses_of op regs) _ h in
    let (checked, hc, h₂) = >>=-eq-ok (check_pointers site.sp pointers) _ h₁ in
    let h₃ = rw d at h₂ in
    let pointer = operate ◌+ℤ◌ (held vs base) offset in
    let here = addresses_of-May op regs vs text name offset base pointers hp t o n s in
    let sign = sign_extending site.mnemonic in
    let fetched = loaded-May site memory size pointers pointer actual r i here in
    let extended = extend-May sign size (actual (pointer, size)) _ fetched in
    let value =
      subst (λ v. May v (extend sign size (loaded site memory size pointers)))
        (received-Receives site.mnemonic size (actual (pointer, size)) w m) extended in
    subst (λ (e : Effect). Describes e.regs (write dest w vs)) (ok-eq h₃)
      (set_register-Describes regs vs dest (extend sign size (loaded site memory size pointers)) w s
        value)

stored_values-eq :
    (op : List Text) (regs : List Values) (pointer : ℤ) (source : ℕ)
    → inside_stack pointer ≡ true
    → register_operand op 0 ≡ ok source
    → stored_values op regs (some (pointer ∷ [])) ≡ ok (known regs source)
stored_values-eq op regs pointer source inside s = rw (inside, s) refl

-- If `store` returns, its address is one slot of the private stack, the registers describe the
-- machine's, and the facts hold in its memory, then the registers are as before and the new facts
-- hold in every memory that has the stored value in the slot and is as before in all places that
-- the slot does not overlap.
pub store-Recalls :
    (site : Site) (size : ℕ) (op : List Text) (regs : List Values) (memory : Memory)
    (effect : Effect) (vs : List ℤ) (actual later : Place → ℤ) (pointer : ℤ) (source : ℕ)
    → store site size op regs memory ≡ ok effect
    → addresses_of op regs ≡ ok (some (pointer ∷ []))
    → inside_stack pointer ≡ true
    → register_operand op 0 ≡ ok source
    → Describes regs vs
    → Recalls memory actual
    → later (pointer, size) ≡ held vs source
    → ((key : Place) → overlaps key (pointer, size) ≡ false → later key ≡ actual key)
    → (effect.regs ≡ regs) × Recalls effect.memory later
unfolding store
store-Recalls site size op regs memory effect vs actual later pointer source h p inside s d r here
      apart =
    let h₁ = rw p at h in
    let (checked, hc, h₂) = >>=-eq-ok (check_pointers site.sp (some (pointer ∷ []))) _ h₁ in
    let h₃ = rw (stored_values-eq op regs pointer source inside s) at h₂ in
    let e = ok-eq h₃ in
    let facts =
      stored-Recalls size (known regs source) pointer (held vs source) memory actual later r inside
        (Describes-known regs vs source d) here apart in
    (ap (λ (x : Effect). x.regs) (sym e), subst (λ (x : Effect). Recalls x.memory later) e facts)
