-- ===== src/Interval/Worklist/Closed.antt =====
-- The loop ends with a table that every visit stays within.
use axoloty_embedded.Prelude.{
  ℕ, zero, suc, ◌≡◌, refl, Bool, true, false, none, some, List, [], ◌∷◌, if◌then◌else◌, All,
  Bool-cases, Option-cases, inl, inr, ◌⊎◌, sym, ◌∙◌, List-cases, ◌≤◌,
}
use mathlib.Core.Path.{subst}
use axoloty_embedded.Outcome.{Outcome, ok, >>=-eq-ok, ok-eq}
use axoloty_embedded.Interval.{State, merge, arith}
use axoloty_embedded.Interval.Worklist.{
  Location, same_location, Table, find, Search, enter, push, push_all, visit_next, walk, same_state,
}
use axoloty_embedded.Interval.Worklist.Table.{same_location-pc, find-same}
use axoloty_embedded.Interval.Worklist.Below.{
  Below, Below-refl, Below-trans, merge-Below, same_state-Below,
}
use axoloty_embedded.Interval.Worklist.Grows.{
  Covered, Raises, pending, Grows, Grows-refl, Grows-trans, enter-Grows, find-put_same, some_state,
  Covered-raised, All-Covered-raised, Raises_refl, Raises_trans,
}

push_new :
    (key : Location) (state : State) (s : Search)
    → find key s.states ≡ none
    → Grows s (enter key state s) × Covered (enter key state s).states (key, state)
push_new key state s e = (
  enter-Grows key state s (λ old h. absurd (cc)),
  (state, find-put_same key state s.states, Below-refl state),
)

push_old :
    (key : Location) (state old joined : State) (s : Search) (b : Bool)
    → find key s.states ≡ some old
    → merge old state ≡ ok joined
    → same_state joined old ≡ b
    → Grows s (if b then s else enter key joined s)
      × Covered (if b then s else enter key joined s).states (key, state)
push_old key state old joined s true e m t = (
  Grows-refl s,
  (
    old,
    e,
    Below-trans state joined old (merge-Below old state joined m).1 (same_state-Below joined old t),
  ),
)
push_old key state old joined s false e m t = (
  enter-Grows key joined s (λ other h.
      subst (λ (x : State). Below x joined) (some_state (sym e ∙ h))
        (merge-Below old state joined m).0),
  (joined, find-put_same key joined s.states, (merge-Below old state joined m).1),
)

push-Grows :
    (key : Location) (state : State) (s later : Search)
    → push key state s ≡ ok later
    → Grows s later × Covered later.states (key, state)
unfolding push
push-Grows key state s later h = elim (Option-cases (find key s.states)) [
  | inl e ↦
      subst (λ (x : Search). Grows s x × Covered x.states (key, state)) (ok-eq (rw (e, push) at h))
        (push_new key state s e)
  | inr (old, e) ↦
      let (joined, m, k) = >>=-eq-ok (merge old state) _ (rw (e, push) at h) in
      subst (λ (x : Search). Grows s x × Covered x.states (key, state)) (ok-eq k)
        (push_old key state old joined s (same_state joined old) e m refl)
]

push_all-Grows :
    (items : List (Location × State)) (s later : Search)
    → push_all items s ≡ ok later
    → Grows s later × All (Covered later.states) items
unfolding push_all
push_all-Grows [] s later h = (subst (Grows s) (ok-eq h) (Grows-refl s), tt)
push_all-Grows ((key, state) ∷ items) s later h =
    let (next, p, k) = >>=-eq-ok (push key state s) _ h in
    let (g, c) = push-Grows key state s next p in
    let (g', cs) = push_all-Grows items next later k in
    (
      Grows-trans s next later g g',
      (Covered-raised next.states later.states (key, state) g'.0 c, cs),
    )

-- The contexts that visits lead to.
pub data Ran {C : Type 0} (visit : C → ℕ → State → Outcome (C × List (Location × State)))
    : C → C → Type 0 where
  here : (c : C) → Ran visit c c
  onward :
      (c c' last : C) (pc : ℕ) (state : State) (items : List (Location × State))
      → visit c pc state ≡ ok (c', items)
      → Ran visit c' last
      → Ran visit c last

module _ {C : Type 0} (visit : C → ℕ → State → Outcome (C × List (Location × State))) where
  Ran-trans : (a b c : C) → Ran visit a b → Ran visit b c → Ran visit a c
  Ran-trans a b c (here _) s = s
  Ran-trans a b c (onward _ a' _ pc state items v r) s =
      onward a a' c pc state items v (Ran-trans a' b c r s)

  -- What no visit lowers, no run lowers.
  pub Ran-le :
      (grade : C → ℕ)
      → ((c c' : C) (pc : ℕ) (state : State) (items : List (Location × State))
          → visit c pc state ≡ ok (c', items)
          → grade c ≤ grade c')
      → (a b : C) → Ran visit a b
      → grade a ≤ grade b
  Ran-le grade grows a b (here _) = omega arith
  Ran-le grade grows a b (onward _ a' _ pc state items v r) =
      omega (arith, grows a a' pc state items v, Ran-le grade grows a' b r)

  -- On the way from one context to the other the state was visited, and the table covers all that
  -- the visit led to.
  abbrev pub Done : Table → C → C → ℕ → State → Type 0
  Done table start final pc state =
      (c : C) × (c' : C) × (items : List (Location × State)) × Ran visit start c
      × (visit c pc state ≡ ok (c', items))
      × Ran visit c' final
      × All (Covered table) items

  -- Every state of the table is pending or done.
  abbrev pub IsConsistent : C → C → Search → Type 0
  IsConsistent start context s =
      (key : Location) (state : State)
      → find key s.states ≡ some state
      → (pending key s.work ≡ true) ⊎ Done s.states start context key.pc state

  Done-raised :
      (table later : Table) (start context after : C) (pc : ℕ) (state : State)
      → Raises table later
      → Ran visit context after
      → Done table start context pc state
      → Done later start after pc state
  Done-raised table later start context after pc state r l (c, c', items, b, v, f, cs) = (
    c,
    c',
    items,
    b,
    v,
    Ran-trans c' context after f l,
    All-Covered-raised table later items r cs,
  )

  abbrev pub IsClosed : C → C → Table → Type 0
  IsClosed start final table =
      (key : Location) (state : State)
      → find key table ≡ some state
      → Done table start final key.pc state

  module _ (start : C) where
    -- What a visit of the state at the head leaves consistent.
    visited :
        (context after : C) (s later : Search) (key : Location) (rest : List Location)
        (state : State) (items : List (Location × State))
        → s.work ≡ key ∷ rest
        → Ran visit start context
        → IsConsistent start context s
        → find key s.states ≡ some state
        → visit context key.pc state ≡ ok (after, items)
        → Grows (record s { work = rest }) later
        → All (Covered later.states) items
        → IsConsistent start after later
    visited context after s later key rest state items w ran c f v g cs k t h = elim (g.1 k t h) [
      | inr p ↦ inl p
      | inl old ↦ elim (c k t old) [
        | inr d ↦ inr (
            Done-raised s.states later.states start context after k.pc t g.0
              (onward context after after key.pc state items v (here after)) d)
        | inl p ↦
            split old (Bool-cases (same_location k key))
              (subst (λ (ks : List Location). pending k ks ≡ true) w p)
      ]
    ]
      where
        split :
            find k s.states ≡ some t
            → (same_location k key ≡ true) ⊎ (same_location k key ≡ false)
            → pending k (key ∷ rest) ≡ true
            → (pending k later.work ≡ true) ⊎ Done later.states start after k.pc t
        split old (inl e) p =
            let same = some_state (sym f ∙ (sym (find-same k key s.states e) ∙ old)) in
            let run : visit context k.pc t ≡ ok (after, items) =
              rw (same_location-pc k key e, ← same) v in
            inr (context, after, items, ran, run, here after, cs)
        split old (inr e) p = inl (g.2 k (rw e at p))

    visit_next-IsConsistent :
        (context after : C) (s later : Search) (key : Location) (rest : List Location)
        → s.work ≡ key ∷ rest
        → Ran visit start context
        → IsConsistent start context s
        → visit_next visit context (record s { work = rest }) key ≡ ok (after, later)
        → IsConsistent start after later × Raises s.states later.states × Ran visit context after
    unfolding visit_next
    visit_next-IsConsistent context after s later key rest w ran c h =
        elim (Option-cases (find key s.states)) [
          | inl e ↦ absurd (cc (rw (e, visit_next) at h))
          | inr (state, e) ↦
              let (done, v, h₁) =
                >>=-eq-ok (visit context key.pc state) _ (rw (e, visit_next) at h) in
              let (next, p, h₂) = >>=-eq-ok (push_all done.1 (record s { work = rest })) _ h₁ in
              let (g, cs) = push_all-Grows done.1 (record s { work = rest }) next p in
              let q : next ≡ later = cc in
              let r : done.0 ≡ after = cc in
              let found = visited context done.0 s next key rest state done.1 w ran c e v g cs in
              let raised_too : Raises s.states later.states =
                subst (λ (x : Search). Raises s.states x.states) q g.0 in
              (
                subst (λ (a : C). IsConsistent start a later) r
                    (subst (IsConsistent start done.0) q found),
                raised_too,
                subst (λ (a : C). Ran visit context a) r
                    (onward context done.0 done.0 key.pc state done.1 v (here done.0)),
              )
        ]

    finished :
        (context after : C) (s later : Search)
        → s.work ≡ []
        → IsConsistent start context s
        → ◌≡◌ {A = Outcome (C × Search)} (ok (context, s)) (ok (after, later))
        → IsClosed start after later.states × Raises s.states later.states
    finished context after s later w c h =
        let e : s ≡ later = cc in
        let f : context ≡ after = cc in
        subst (λ (x : Search). IsClosed start after x.states × Raises s.states x.states) e
          (subst (λ (a : C). IsClosed start a s.states) f closed, Raises_refl s.states)
      where
        closed : IsClosed start context s.states
        closed key state f = elim (c key state f) [
          | inr d ↦ d
          | inl p ↦ absurd (cc (subst (λ (ks : List Location). pending key ks ≡ true) w p))
        ]

    -- If the loop returns, whatever number of visits it was allowed, and every state of the table
    -- was pending or done before, then every state of the final table is done, as it stands there,
    -- and each state from before is covered.
    pub walk-IsClosed :
        (count : ℕ) (context after : C) (s later : Search)
        → walk visit count context s ≡ ok (after, later)
        → Ran visit start context
        → IsConsistent start context s
        → IsClosed start after later.states × Raises s.states later.states
    unfolding walk
    walk-IsClosed zero context after s later h ran c = elim (List-cases s.work) [
      | inl e ↦ finished context after s later e c (rw (e, walk) at h)
      | inr (key, rest, e) ↦ absurd (cc (rw (e, walk) at h))
    ]
    walk-IsClosed (suc count) context after s later h ran c = elim (List-cases s.work) [
      | inl e ↦ finished context after s later e c (rw (e, walk) at h)
      | inr (key, rest, e) ↦
          let (next, v, h₁) =
            >>=-eq-ok (visit_next visit context (record s { work = rest }) key) _
              (rw (e, walk) at h) in
          let (c', r, on) = visit_next-IsConsistent context next.0 s next.1 key rest e ran c v in
          let (closed, r') =
            walk-IsClosed count next.0 after next.1 later h₁ (Ran-trans start context next.0 ran on)
              c' in
          (closed, Raises_trans s.states next.1.states later.states r r')
    ]
