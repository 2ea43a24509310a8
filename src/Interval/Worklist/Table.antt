-- ===== src/Interval/Worklist/Table.antt =====
-- Locations are equal or not in every dictionary: laws of `find` and `put`.
use axoloty_embedded.Prelude.{
  ◌≡◌, refl, Bool, true, false, Option, some, [], ◌∷◌, Bool-cases, inl, inr, arith, if◌then◌else◌,
  sym, ◌∙◌,
}
use axoloty_embedded.Interval.{State, same_values}
use axoloty_embedded.Interval.Worklist.{Location, same_location, Table, find, put}
use axoloty_embedded.Interval.Worklist.Sets.{same_values_refl, same_values_sym, same_values_trans}

-- The five tests of an equality of locations.
SameParts : Location → Location → Type 0
SameParts a b =
    (a.pc ≡ b.pc)
    × (a.phase ≡ b.phase)
    × (same_values a.ra b.ra ≡ true)
    × (same_values a.t0 b.t0 ≡ true)
    × (same_values a.sp b.sp ≡ true)

same_location-SameParts : (a b : Location) → same_location a b ≡ true → SameParts a b
unfolding same_location SameParts
same_location-SameParts a b h = ground arith

SameParts-same_location : (a b : Location) → SameParts a b → same_location a b ≡ true
unfolding same_location SameParts
SameParts-same_location a b (p, q, r, s, t) = ground arith

pub same_location-pc : (a b : Location) → same_location a b ≡ true → a.pc ≡ b.pc
unfolding SameParts
same_location-pc a b h = (same_location-SameParts a b h).0

pub same_location_refl : (a : Location) → same_location a a ≡ true
unfolding SameParts
same_location_refl a =
    SameParts-same_location a a
      (refl, refl, same_values_refl a.ra, same_values_refl a.t0, same_values_refl a.sp)

pub same_location_sym : (a b : Location) → same_location a b ≡ true → same_location b a ≡ true
unfolding SameParts
same_location_sym a b h =
    let (p, q, r, s, t) = same_location-SameParts a b h in
    SameParts-same_location b a (
      sym p,
      sym q,
      same_values_sym a.ra b.ra r,
      same_values_sym a.t0 b.t0 s,
      same_values_sym a.sp b.sp t,
    )

pub same_location_trans :
    (a b c : Location)
    → same_location a b ≡ true
    → same_location b c ≡ true
    → same_location a c ≡ true
unfolding SameParts
same_location_trans a b c h k =
    let (p, q, r, s, t) = same_location-SameParts a b h in
    let (p', q', r', s', t') = same_location-SameParts b c k in
    SameParts-same_location a c (
      p ∙ p',
      q ∙ q',
      same_values_trans a.ra b.ra c.ra r r',
      same_values_trans a.t0 b.t0 c.t0 s s',
      same_values_trans a.sp b.sp c.sp t t',
    )

-- A location that equals one of two equal ones equals the other.
pub same_location_left :
    (a b k : Location) → same_location a b ≡ true → same_location k a ≡ same_location k b
same_location_left a b k h = elim (Bool-cases (same_location k a)) [
  | inl e ↦ e ∙ sym (same_location_trans k a b e h)
  | inr e ↦ elim (Bool-cases (same_location k b)) [
    | inl f ↦ let g = same_location_trans k b a f (same_location_sym a b h) in absurd (cc)
    | inr f ↦ e ∙ sym f
  ]
]

pub find-same :
    (a b : Location) (table : Table) → same_location a b ≡ true → find a table ≡ find b table
unfolding find
find-same a b [] h = refl
find-same a b ((k, s) ∷ table) h = rw (same_location_left a b k h, find-same a b table h) refl

pub same_location_right :
    (a b k : Location) → same_location a b ≡ true → same_location a k ≡ same_location b k
same_location_right a b k h = elim (Bool-cases (same_location b k)) [
  | inl e ↦ same_location_trans a b k h e ∙ sym e
  | inr e ↦ elim (Bool-cases (same_location a k)) [
    | inl f ↦ let g = same_location_trans b a k (same_location_sym a b h) f in absurd (cc)
    | inr f ↦ f ∙ sym e
  ]
]

put_here :
    (state s : State) (b c : Bool) (rest : Option State)
    → b ≡ c
    → (if b then some state else rest) ≡ (if c then some state else if b then some s else rest)
put_here state s b c rest h = ground arith

put_there :
    (state s : State) (b c : Bool) (rest later : Option State)
    → later ≡ (if c then some state else rest)
    → (b ≡ true → c ≡ false)
    → (if b then some s else later) ≡ (if c then some state else if b then some s else rest)
put_there state s true true rest later h k = absurd (cc (k refl))
put_there state s true false rest later h k = refl
put_there state s false true rest later h k = h
put_there state s false false rest later h k = h

apart :
    (k key other : Location)
    → same_location k key ≡ false
    → same_location k other ≡ true
    → same_location key other ≡ false
apart k key other h e = elim (Bool-cases (same_location key other)) [
  | inl f ↦ let g = same_location_trans k other key e (same_location_sym key other f) in absurd (cc)
  | inr f ↦ f
]

pub find-put :
    (key other : Location) (state : State) (table : Table)
    → find other (put key state table)
      ≡ (if same_location key other then some state else find other table)
unfolding find put
find-put key other state [] = refl
find-put key other state ((k, s) ∷ table) = elim (Bool-cases (same_location k key)) [
  | inl e ↦ rw e (
      put_here state s (same_location k other) (same_location key other) (find other table)
        (same_location_right k key other e))
  | inr e ↦ rw e (
      put_there state s (same_location k other) (same_location key other) (find other table)
        (find other (put key state table)) (find-put key other state table) (apart k key other e))
]
