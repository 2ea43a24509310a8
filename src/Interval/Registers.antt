-- ===== src/Interval/Registers.antt =====
-- Reading and writing the registers of an abstract state of
-- Tools/EmbeddedApplicationMacros/initialization_interval.py, and what they describe.
use axoloty_embedded.Prelude.{
  ℕ, zero, suc, ◌≡◌, true, inl, inr, none, List, [], ◌∷◌, get_or, set, In, Bool-cases, arith,
}
use axoloty_embedded.Prelude.Int.{ℤ, pos, eq_ℤ, eq_ℤ_iff}
use axoloty_embedded.Interval.{Values, holds}
use axoloty_embedded.Interval.Sound.{May, Describes}

-- `regs[r]`
abbrev pub known : List Values → ℕ → Values
known regs r = get_or regs r none

-- The value that a machine holds in a register.
abbrev pub held : List ℤ → ℕ → ℤ
held vs r = get_or vs r (pos 0)

pub holds-In : (v : ℤ) (vs : List ℤ) → holds v vs ≡ true → In v vs
holds-In v [] h = absurd (cc)
holds-In v (w ∷ vs) h = elim (Bool-cases (eq_ℤ v w)) [
  | inl e ↦ inl ((eq_ℤ_iff v w).0 e)
  | inr e ↦ inr (holds-In v vs (ground arith))
]

pub In-holds : (v : ℤ) (vs : List ℤ) → In v vs → holds v vs ≡ true
In-holds v [] m = absurd m
In-holds v (w ∷ vs) (inl e) = let here = (eq_ℤ_iff v w).1 e in ground arith
In-holds v (w ∷ vs) (inr m) = ground (arith, In-holds v vs m)

pub Describes-known :
    (regs : List Values) (vs : List ℤ) (r : ℕ) → Describes regs vs → May (held vs r) (known regs r)
Describes-known [] [] r d = tt
Describes-known [] (v ∷ vs) r d = absurd d
Describes-known (a ∷ regs) [] r d = absurd d
Describes-known (a ∷ regs) (v ∷ vs) zero d = d.0
Describes-known (a ∷ regs) (v ∷ vs) (suc r) d = Describes-known regs vs r d.1

-- A narrower set for a register whose value it still holds.
pub Describes-set_known :
    (regs : List Values) (vs : List ℤ) (r : ℕ) (a : Values)
    → Describes regs vs
    → May (held vs r) a
    → Describes (set regs r a) vs
Describes-set_known [] [] r a d m = d
Describes-set_known [] (v ∷ vs) r a d m = absurd d
Describes-set_known (b ∷ regs) [] r a d m = absurd d
Describes-set_known (b ∷ regs) (v ∷ vs) zero a d m = (m, d.1)
Describes-set_known (b ∷ regs) (v ∷ vs) (suc r) a d m = (d.0, Describes-set_known regs vs r a d.1 m)

pub Describes-set :
    (regs : List Values) (vs : List ℤ) (r : ℕ) (a : Values) (v : ℤ)
    → Describes regs vs
    → May v a
    → Describes (set regs r a) (set vs r v)
Describes-set [] [] r a w d m = d
Describes-set [] (v ∷ vs) r a w d m = absurd d
Describes-set (b ∷ regs) [] r a w d m = absurd d
Describes-set (b ∷ regs) (v ∷ vs) zero a w d m = (m, d.1)
Describes-set (b ∷ regs) (v ∷ vs) (suc r) a w d m = (d.0, Describes-set regs vs r a w d.1 m)
