-- ===== src/Interval/Worklist/Grows.antt =====
-- Tables of states that grow, and what the entry of one location into the search does.
use axoloty_embedded.Prelude.{
  ◌≡◌, refl, Bool, true, some, List, [], ◌∷◌, ◌++◌, any, All, Bool-cases, inl, inr, arith, ◌⊎◌, sym,
  ◌∙◌,
}
use axoloty_embedded.Interval.{State}
use axoloty_embedded.Interval.Worklist.{Location, same_location, Table, find, put, Search, enter}
use axoloty_embedded.Interval.Worklist.Table.{
  same_location_refl, find-same, find-put, same_location_sym,
}
use axoloty_embedded.Interval.Worklist.Below.{Below, Below-refl, Below-trans}

-- The table has a state for the location that allows all that the given one allows.
abbrev pub Covered : Table → Location × State → Type 0
Covered table item = (s : State) × (find item.0 table ≡ some s) × Below item.1 s

-- Every state of the first table is covered by the second.
abbrev pub Raises : Table → Table → Type 0
Raises table later = (key : Location) (s : State) → find key table ≡ some s → Covered later (key, s)

abbrev pub pending : Location → List Location → Bool
pending key work = any (same_location key) work

pub Raises_refl : (table : Table) → Raises table table
Raises_refl table key s h = (s, h, Below-refl s)

pub Covered-raised :
    (table later : Table) (item : Location × State)
    → Raises table later
    → Covered table item
    → Covered later item
Covered-raised table later (key, t) r (s, f, b) =
    let (s', f', b') = r key s f in (s', f', Below-trans t s s' b b')

pub Raises_trans : (a b c : Table) → Raises a b → Raises b c → Raises a c
Raises_trans a b c p q key s h = Covered-raised b c (key, s) q (p key s h)

pub All-Covered-raised :
    (table later : Table) (items : List (Location × State))
    → Raises table later
    → All (Covered table) items
    → All (Covered later) items
All-Covered-raised table later [] r c = tt
All-Covered-raised table later (item ∷ items) r (c, cs) =
    (Covered-raised table later item r c, All-Covered-raised table later items r cs)

pub some_state : {a b : State} → some a ≡ some b → a ≡ b
some_state h = cc

pub find-put_same :
    (key : Location) (state : State) (table : Table) → find key (put key state table) ≡ some state
find-put_same key state table = find-put key key state table ∙ rw (same_location_refl key) refl

pub put-Raises :
    (key : Location) (state : State) (table : Table)
    → ((old : State) → find key table ≡ some old → Below old state)
    → Raises table (put key state table)
put-Raises key state table above other s h = elim (Bool-cases (same_location key other)) [
  | inl e ↦
      (state, find-put key other state table ∙ rw e refl, above s (find-same key other table e ∙ h))
  | inr e ↦ (s, find-put key other state table ∙ rw e h, Below-refl s)
]

-- What the pushes of one visit do: states only grow, what changes is pending, and what is pending
-- stays so.
abbrev pub Grows : Search → Search → Type 0
Grows s t =
    Raises s.states t.states
    × ((key : Location) (state : State)
        → find key t.states ≡ some state
        → (find key s.states ≡ some state) ⊎ (pending key t.work ≡ true))
    × ((key : Location) → pending key s.work ≡ true → pending key t.work ≡ true)

pub Grows-refl : (s : Search) → Grows s s
Grows-refl s = (Raises_refl s.states, λ key state h. inl h, λ key h. h)

pub Grows-trans : (a b c : Search) → Grows a b → Grows b c → Grows a c
Grows-trans a b c (r, u, p) (r', u', p') =
    (Raises_trans a.states b.states c.states r r', changed, λ key h. p' key (p key h))
  where
    changed :
        (key : Location) (state : State)
        → find key c.states ≡ some state
        → (find key a.states ≡ some state) ⊎ (pending key c.work ≡ true)
    changed key state h = elim (u' key state h) [
      | inr e ↦ inr e
      | inl e ↦ elim (u key state e) [ inl f ↦ inl f | inr f ↦ inr (p' key f) ]
    ]

pub pending-append_left :
    (key : Location) (work more : List Location)
    → pending key work ≡ true
    → pending key (work ++ more) ≡ true
pending-append_left key [] more h = absurd (cc)
pending-append_left key (k ∷ work) more h = elim (Bool-cases (same_location key k)) [
  | inl e ↦ rw e refl
  | inr e ↦ rw e (pending-append_left key work more (rw e at h))
]

pub pending-append_last :
    (key last : Location) (work : List Location)
    → same_location key last ≡ true
    → pending key (work ++ (last ∷ [])) ≡ true
pending-append_last key last [] h = rw h refl
pending-append_last key last (k ∷ work) h =
    let later = pending-append_last key last work h in ground arith

pub enter-Grows :
    (key : Location) (state : State) (s : Search)
    → ((old : State) → find key s.states ≡ some old → Below old state)
    → Grows s (enter key state s)
enter-Grows key state s above =
    (put-Raises key state s.states above, changed, λ k h. pending-append_left k s.work _ h)
  where
    changed :
        (k : Location) (t : State)
        → find k (put key state s.states) ≡ some t
        → (find k s.states ≡ some t) ⊎ (pending k (s.work ++ (key ∷ [])) ≡ true)
    changed k t h = elim (Bool-cases (same_location key k)) [
      | inl e ↦ inr (pending-append_last k key s.work (same_location_sym key k e))
      | inr e ↦ inl (rw e at (sym (find-put key k state s.states) ∙ h))
    ]
