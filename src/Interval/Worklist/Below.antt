-- ===== src/Interval/Worklist/Below.antt =====
-- One state allows all that another allows; what a join and an equality of states give.
use axoloty_embedded.Prelude.{
  ℕ, zero, suc, ◌≡◌, refl, true, Option, none, some, List, [], ◌∷◌, &&_both, Bool-cases, inl, inr,
  if◌then◌else◌, Option-cases, ◌⊎◌,
}
use mathlib.Core.Path.{subst}
use axoloty_embedded.Prelude.Int.{ℤ}
use axoloty_embedded.Outcome.{ok, ok-eq, reject_if-eq-ok}
use axoloty_embedded.Interval.{
  Values, Place, State, union, join_registers, join_memory, recall, same_values, merge, same_place,
}
use axoloty_embedded.Interval.Sound.{May, union-May}
use axoloty_embedded.Interval.Registers.{known}
use axoloty_embedded.Interval.Access.Sound.{some-eq, same_place-eq}
use axoloty_embedded.Interval.Worklist.{same_registers, facts_within, same_state, agrees}
use axoloty_embedded.Interval.Worklist.Sets.{same_values-May, same_values_sym}

-- Every value that a register may hold in the first may be there in the second, and every fact of
-- the second about memory is one of the first, with at most the values that the second allows.
abbrev pub Weaker : Values → Values → Type 0
Weaker a b = (v : ℤ) → May v a → May v b

abbrev pub Below : State → State → Type 0
Below a b =
    ((r : ℕ) → Weaker (known a.regs r) (known b.regs r))
    × ((key : Place) (w : Values)
        → recall key b.memory ≡ some w
        → (u : Values) × (recall key a.memory ≡ some u) × Weaker u w)

pub Below-refl : (a : State) → Below a a
Below-refl a = (λ r v m. m, λ key w h. (w, h, λ v m. m))

pub Below-trans : (a b c : State) → Below a b → Below b c → Below a c
Below-trans a b c (p, q) (r, s) = (
  λ n v m. r n v (p n v m),
  λ key w h.
      let (u, hu, f) = s key w h in let (t, ht, g) = q key u hu in (t, ht, λ v m. f v (g v m)),
)

join_registers-known :
    (xs bs : List Values) (r : ℕ) (v : ℤ)
    → May v (known xs r) ⊎ May v (known bs r)
    → May v (known (join_registers xs bs) r)
unfolding join_registers
join_registers-known [] bs r v m = tt
join_registers-known (a ∷ xs) [] r v m = tt
join_registers-known (a ∷ xs) (b ∷ bs) zero v m = union-May v a b m
join_registers-known (a ∷ xs) (b ∷ bs) (suc r) v m = join_registers-known xs bs r v m

-- A fact of the join is the union of a fact of each.
abbrev Joined : Option Values → Option Values → Values → Type 0
Joined o o' w = (u : Values) × (u' : Values) × (o ≡ some u) × (o' ≡ some u') × (union u u' ≡ w)

recall-join_memory :
    (key : Place) (memory other : List (Place × Values)) (w : Values)
    → recall key (join_memory memory other) ≡ some w
    → Joined (recall key memory) (recall key other) w
unfolding recall join_memory
recall-join_memory key [] other w h = absurd (cc)
recall-join_memory key ((k, v) ∷ memory) other w h =
    split (recall-join_memory key memory other w) (Option-cases (recall k other))
  where
    split :
        (recall key (join_memory memory other) ≡ some w
          → Joined (recall key memory) (recall key other) w)
        → (recall k other ≡ none) ⊎ ((u : Values) × (recall k other ≡ some u))
        → Joined (if same_place k key then some v else recall key memory) (recall key other) w
    split ih (inl e) =
        let (u, u', p, q, r) = ih (rw (e, join_memory) at h) in
        elim (Bool-cases (same_place k key)) [
          | inl t ↦
              let e' : recall key other ≡ none =
                subst (λ (x : Place). recall x other ≡ none) (same_place-eq k key t) e in
              absurd (cc)
          | inr t ↦ (u, u', rw t p, q, r)
        ]
    split ih (inr (u, e)) =
        let g : (if same_place k key
              then some (union v u)
              else recall key (join_memory memory other))
            ≡ some w =
          rw (e, join_memory) at h in
        elim (Bool-cases (same_place k key)) [
          | inl t ↦
              let e' : recall key other ≡ some u =
                subst (λ (x : Place). recall x other ≡ some u) (same_place-eq k key t) e in
              (v, u, rw t refl, e', some-eq (rw t at g))
          | inr t ↦ let (x, x', p, q, r) = ih (rw t at g) in (x, x', rw t p, q, r)
        ]

-- A join allows all that either state allows.
pub merge-Below : (a b c : State) → merge a b ≡ ok c → Below a c × Below b c
unfolding merge
merge-Below a b c h =
    let (same, k) = reject_if-eq-ok _ _ _ h in
    subst (λ (s : State). Below a s × Below b s) (ok-eq k)
      (
        (
          λ r v m. join_registers-known a.regs b.regs r v (inl m),
          λ key w e.
              let (u, u', p, q, t) = recall-join_memory key a.memory b.memory w e in
              (u, p, λ v m. subst (May v) t (union-May v u u' (inl m))),
        ),
        (
          λ r v m. join_registers-known a.regs b.regs r v (inr m),
          λ key w e.
              let (u, u', p, q, t) = recall-join_memory key a.memory b.memory w e in
              (u', q, λ v m. subst (May v) t (union-May v u u' (inr m))),
        ),
      )

same_registers-known :
    (xs bs : List Values) (r : ℕ) → same_registers xs bs ≡ true → Weaker (known xs r) (known bs r)
unfolding same_registers
same_registers-known [] [] r h v m = tt
same_registers-known [] (b ∷ bs) r h v m = absurd (cc)
same_registers-known (a ∷ xs) [] r h v m = tt
same_registers-known (a ∷ xs) (b ∷ bs) zero h v m =
    same_values-May a b v (&&_both (same_values a b) (same_registers xs bs) h).0 m
same_registers-known (a ∷ xs) (b ∷ bs) (suc r) h v m =
    same_registers-known xs bs r (&&_both (same_values a b) (same_registers xs bs) h).1 v m

agrees-some :
    (v : Values) (o : Option Values)
    → agrees v o ≡ true
    → (w : Values) × (o ≡ some w) × (same_values v w ≡ true)
agrees-some v none h = absurd (cc)
agrees-some v (some w) h = (w, refl, h)

facts_within-recall :
    (memory other : List (Place × Values)) (key : Place) (w : Values)
    → facts_within memory other ≡ true
    → recall key memory ≡ some w
    → (u : Values) × (recall key other ≡ some u) × (same_values w u ≡ true)
unfolding facts_within recall
facts_within-recall [] other key w h e = absurd (cc)
facts_within-recall ((k, v) ∷ memory) other key w h e =
    let (here, rest) = &&_both (agrees v (recall k other)) (facts_within memory other) h in
    elim (Bool-cases (same_place k key)) [
      | inl t ↦
          let (u, p, q) = agrees-some v (recall k other) here in
          let same : v ≡ w = some-eq (rw t at e) in
          (
            u,
            subst (λ (x : Place). recall x other ≡ some u) (same_place-eq k key t) p,
            rw (← same) q,
          )
      | inr t ↦ facts_within-recall memory other key w rest (rw t at e)
    ]

-- Equal states allow the same.
pub same_state-Below : (a b : State) → same_state a b ≡ true → Below a b
unfolding same_state
same_state-Below a b h =
    let (p, h₁) = &&_both (same_registers a.regs b.regs) _ h in
    let (q, h₂) = &&_both (facts_within a.memory b.memory) _ h₁ in
    let (r, h₃) = &&_both (facts_within b.memory a.memory) _ h₂ in
    (
      λ n. same_registers-known a.regs b.regs n p,
      λ key w e.
          let (u, f, g) = facts_within-recall b.memory a.memory key w r e in
          (u, f, λ v. same_values-May u w v (same_values_sym w u g)),
    )
