-- ===== src/Interval/Access/Sound.antt =====
-- Loads and stores on what a machine's memory holds.
use axoloty_embedded.Prelude.{
  ℕ, ◌≡◌, refl, Bool, true, false, Option, none, some, List, [], ◌∷◌, In, ◌⊎◌, inl, inr, Bool-cases,
  arith, ◌==◌, if◌then◌else◌, &&_both, ap,
}
use mathlib.Core.Path.{subst}
use axoloty_embedded.Prelude.Int.{ℤ, eq_ℤ, eq_ℤ_iff, ◌+ℤ◌}
use axoloty_embedded.Interval.{Values, Place, recall, same_place, holds, ok, operate, const, union}
use axoloty_embedded.Interval.Sound.{
  May, Describes, union-May, holds-add_value_same, holds-add_value,
}
use axoloty_embedded.Interval.Access.{
  Memory, overlaps, forget, stored, inside_stack, set, addresses_of, Site, fetched_any, extend_all,
  extended, extend, set_register, Text, fetched, loaded, operand, offset_match, register, known,
  or_read,
}
use axoloty_embedded.Interval.Registers.{holds-In, Describes-set, held, Describes-known, In-holds}
use axoloty_embedded.Outcome.{ok-eq}
use axoloty_embedded.Interval.Integers.{arithmetic-May}
use axoloty_embedded.Interval.Access.Image.{Immutable, read-May, received}

-- What is recalled of a place may stand there.
abbrev pub Recalls : Memory → (Place → ℤ) → Type 0
Recalls memory actual = (key : Place) (v : Values) → recall key memory ≡ some v → May (actual key) v

pub same_place-eq : (k key : Place) → same_place k key ≡ true → k ≡ key
same_place-eq (a, m) (b, n) h =
    let (first, second) = &&_both (eq_ℤ a b) (m == n) h in
    let p = (eq_ℤ_iff a b).0 first in let q : m ≡ n = ground arith in cc

-- Forgetting what overlaps a place leaves facts about places that do not.
forget-recall :
    (place key : Place) (memory : Memory) (v : Values)
    → recall key (forget place memory) ≡ some v
    → (recall key memory ≡ some v) × (overlaps key place ≡ false)
unfolding forget recall
forget-recall place key [] v h = absurd (cc)
forget-recall place key ((k, w) ∷ memory) v h = elim (Bool-cases (overlaps k place)) [
  | inl o ↦
      let (there, apart) = forget-recall place key memory v (rw o at h) in
      elim (Bool-cases (same_place k key)) [
        | inl e ↦
            let q = same_place-eq k key e in
            let o' : overlaps key place ≡ true =
              subst (λ (p : Place). overlaps p place ≡ true) q o in
            absurd (cc)
        | inr e ↦ rw e (there, apart)
      ]
  | inr o ↦
      let h' : (if same_place k key then some w else recall key (forget place memory)) ≡ some v =
        rw o at h in
      elim (Bool-cases (same_place k key)) [
        | inl e ↦
            let q = same_place-eq k key e in
            rw e (rw e at h', subst (λ (p : Place). overlaps p place ≡ false) q o)
        | inr e ↦ rw e (forget-recall place key memory v (rw e at h'))
      ]
]

pub some-eq : {a b : Values} → some a ≡ some b → a ≡ b
some-eq h = cc

-- A store of a value to one private slot: the facts that are kept hold in every memory that has the
-- value in the slot and is as before in all places that the slot does not overlap.
pub stored-Recalls :
    (size : ℕ) (value : Values) (pointer v : ℤ) (memory : Memory) (actual later : Place → ℤ)
    → Recalls memory actual
    → inside_stack pointer ≡ true
    → May v value
    → later (pointer, size) ≡ v
    → ((key : Place) → overlaps key (pointer, size) ≡ false → later key ≡ actual key)
    → Recalls (stored size value (some (pointer ∷ [])) memory) later
unfolding recall
stored-Recalls size value pointer v memory actual later r inside m here apart key w =
    rw inside (λ h. elim (Bool-cases (same_place (pointer, size) key)) [
      | inl e ↦
          let q = same_place-eq (pointer, size) key e in
          let same : value ≡ w = some-eq (rw e at h) in
          subst (λ (p : Place). May (later p) w) q (rw (here, ← same) m)
      | inr e ↦
          let (there, far) = forget-recall (pointer, size) key memory w (rw e at h) in
          rw (apart key far) (r key w there)
    ])

-- The register write of the machine: x0 keeps its value.
abbrev pub write : ℕ → ℤ → List ℤ → List ℤ
write r v vs = if r == 0 then vs else set vs r v

pub set_register-Describes :
    (regs : List Values) (vs : List ℤ) (r : ℕ) (a : Values) (v : ℤ)
    → Describes regs vs
    → May v a
    → Describes (set_register r a regs) (write r v vs)
set_register-Describes regs vs r a v d m = elim (Bool-cases (r == 0)) [
  | inl e ↦ rw e d
  | inr e ↦ rw e (Describes-set regs vs r a v d m)
]

-- The address that the machine computes is among the addresses.
pub addresses_of-May :
    (op : List Text) (regs : List Values) (vs : List ℤ) (text name : Text) (offset : ℤ) (r : ℕ)
    (pointers : Values)
    → addresses_of op regs ≡ ok pointers
    → operand op 1 ≡ ok text
    → offset_match text ≡ some (offset, name)
    → register name ≡ ok r
    → Describes regs vs
    → May (operate ◌+ℤ◌ (held vs r) offset) pointers
unfolding addresses_of
addresses_of-May op regs vs text name offset r pointers h t o n d =
    let h' = rw (t, o, n) at h in
    subst (May (operate ◌+ℤ◌ (held vs r) offset)) (ok-eq h') (
      arithmetic-May ◌+ℤ◌ (held vs r) offset (known regs r) (const offset)
        (Describes-known regs vs r d) (In-holds offset (offset ∷ []) (inl refl)))

or_read-May :
    (v : ℤ) (o : Option Values) (a : Values)
    → ((w : Values) → o ≡ some w → May v w)
    → May v a
    → May v (or_read o a)
or_read-May v none a h m = m
or_read-May v (some w) a h m = h w refl

fetched-May :
    (site : Site) (memory : Memory) (size : ℕ) (pointer : ℤ) (actual : Place → ℤ)
    → Recalls memory actual
    → Immutable site.sections actual
    → May (actual (pointer, size)) (fetched site memory size pointer)
fetched-May site memory size pointer actual r i =
    or_read-May (actual (pointer, size)) (recall (pointer, size) memory) _ (r (pointer, size))
      (read-May site.sections actual i pointer size)

fetched_any-May :
    (site : Site) (memory : Memory) (size : ℕ) (v : ℤ) (actual : Place → ℤ) (pointers : List ℤ)
    (value : Values)
    → Recalls memory actual
    → Immutable site.sections actual
    → May v value ⊎ ((pointer : ℤ) × In pointer pointers × (v ≡ actual (pointer, size)))
    → May v (fetched_any site memory size value pointers)
unfolding fetched_any
fetched_any-May site memory size v actual [] value r i (inl m) = m
fetched_any-May site memory size v actual [] value r i (inr (p, m, e)) = absurd m
fetched_any-May site memory size v actual (q ∷ pointers) value r i (inl m) =
    fetched_any-May site memory size v actual pointers (union value (fetched site memory size q)) r
      i (inl (union-May v value (fetched site memory size q) (inl m)))
fetched_any-May site memory size v actual (q ∷ pointers) value r i (inr (p, inr m, e)) =
    fetched_any-May site memory size v actual pointers (union value (fetched site memory size q)) r
      i (inr (p, m, e))
fetched_any-May site memory size v actual (q ∷ pointers) value r i (inr (p, inl m, e)) =
    fetched_any-May site memory size v actual pointers (union value (fetched site memory size q)) r
      i
      (inl (
        union-May v value (fetched site memory size q)
          (inr (rw (e, m) (fetched-May site memory size q actual r i)))))

pub loaded-May :
    (site : Site) (memory : Memory) (size : ℕ) (pointers : Values) (pointer : ℤ)
    (actual : Place → ℤ)
    → Recalls memory actual
    → Immutable site.sections actual
    → May pointer pointers
    → May (actual (pointer, size)) (loaded site memory size pointers)
loaded-May site memory size none pointer actual r i m = tt
loaded-May site memory size (some []) pointer actual r i m = tt
loaded-May site memory size (some (p ∷ ps)) pointer actual r i m =
    fetched_any-May site memory size (actual (pointer, size)) actual ps (fetched site memory size p)
      r i (first (holds-In pointer (p ∷ ps) m))
  where
    first :
        In pointer (p ∷ ps)
        → May (actual (pointer, size)) (fetched site memory size p)
          ⊎ ((q : ℤ) × In q ps × (actual (pointer, size) ≡ actual (q, size)))
    first (inl e) = inl (rw e (fetched-May site memory size p actual r i))
    first (inr k) = inr (pointer, k, refl)

extend_all-holds :
    (size : ℕ) (v : ℤ) (vs : List ℤ) → In v vs → holds (extended size v) (extend_all size vs) ≡ true
unfolding extend_all
extend_all-holds size v [] m = absurd m
extend_all-holds size v (w ∷ vs) (inl e) =
    holds-add_value_same (extended size v) (extended size w) (extend_all size vs)
      ((eq_ℤ_iff (extended size v) (extended size w)).1 (ap (extended size) e))
extend_all-holds size v (w ∷ vs) (inr m) =
    holds-add_value (extended size v) (extended size w) (extend_all size vs)
      (extend_all-holds size v vs m)

pub extend-May :
    (sign : Bool) (size : ℕ) (v : ℤ) (a : Values)
    → May v a
    → May (received sign size v) (extend sign size a)
extend-May true size v none m = tt
extend-May true size v (some vs) m = extend_all-holds size v vs (holds-In v vs m)
extend-May false size v a m = m
