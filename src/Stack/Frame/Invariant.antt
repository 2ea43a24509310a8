-- ===== src/Stack/Frame/Invariant.antt =====
-- The invariant of the search, for a run that notes no issue: every point that was seen is settled,
-- and all that it leads to is seen or still to come.
use axoloty_embedded.Prelude.{
  ℕ, ◌≡◌, refl, Bool, true, Option, none, some, List, [], ◌∷◌, In, arith, ◌⊎◌, inl, inr, Bool-cases,
  any-true_some,
}
use axoloty_embedded.Prelude.Int.{ℤ, pos, ◌+ℤ◌, ◌≤ℤ◌, eq_ℤ_iff}
use axoloty_embedded.Stack.Frame.{
  Point, Item, Search, Issue, issue_if, visit, step_point, min_ℤ, round, starts_of, was_seen, fetch,
  same_point, Function, Instruction, stack_step, writes_sp_otherwise, leave_point, ok, writes_ra,
}
use axoloty_embedded.Stack.Frame.Rounds.{Known, points, leave_point-Pushed, issue_if-eq-nil, pushed}
use axoloty_embedded.Stack.Frame.Reach.{Settled, flow_at}

min_le : (a b : ℤ) → (min_ℤ a b ≤ℤ a) × (min_ℤ a b ≤ℤ b)
unfolding min_ℤ
min_le a b = ground arith

le_trans_ℤ : (a b c : ℤ) → a ≤ℤ b → b ≤ℤ c → a ≤ℤ c
le_trans_ℤ a b c h k = omega arith

same_point-eq : (p q : Point) → same_point p q ≡ true → p ≡ q
same_point-eq (pc, d) (qc, e) h = ground (arith, (eq_ℤ_iff d e).0)

module _ (fn : Function) (linkreg_return : Bool) (entry : Point) where
  pub record Closed (s : Search) (p : Point) : Type 0 where
    pub settled : Settled fn linkreg_return s.min_delta p
    pub onward :
        (n : ℕ)
        → In n (flow_at fn linkreg_return settled.index settled.ins).next
        → Known s (n, p.1 +ℤ settled.change)

  pub record Inv (s : Search) : Type 0 where
    pub entered : Known s entry
    pub closed : (p : Point) → In p s.seen → Closed s p
    pub paths :
        (item : Item)
        → In item s.work
        → (q : Point) → In q item.path
        → (q ≡ item.point) ⊎ In q s.seen

  Closed-mono :
      (s t : Search) (p : Point)
      → ((q : Point) → Known s q → Known t q)
      → t.min_delta ≤ℤ s.min_delta
      → Closed s p
      → Closed t p
  Closed-mono s t p grow low c =
      let d = c.settled in
      record {
        settled = record {
          index = d.index;
          ins = d.ins;
          change = d.change;
          fetched = d.fetched;
          stepped = d.stepped;
          bounded = le_trans_ℤ t.min_delta s.min_delta (p.1 +ℤ d.change) low d.bounded;
          understood = d.understood;
          balanced = d.balanced;
        };
        onward = λ n m. grow (n, p.1 +ℤ d.change) (c.onward n m);
      }

  -- `rest` is the search without the item that the round takes.
  abbrev with_item : Item → Search → Search
  with_item item rest = record rest { work = item ∷ rest.work }

  -- The invariant behind a point that was left cleanly.
  left-Inv :
      (item : Item) (rest t : Search) (index : ℕ) (ins : Instruction) (change : ℤ)
      → fetch fn item.point.0 ≡ some (index, ins)
      → stack_step ins ≡ some change
      → t.seen ≡ item.point ∷ rest.seen
      → t.min_delta ≡ min_ℤ rest.min_delta (item.point.1 +ℤ change)
      → (flow_at fn linkreg_return index ins).problem ≡ none
      → ((flow_at fn linkreg_return index ins).exit ≡ true → item.point.1 +ℤ change ≡ pos 0)
      → ((q : Point) → In q (points rest.work) → In q (points t.work))
      → ((n : ℕ)
          → In n (flow_at fn linkreg_return index ins).next
          → In (n, item.point.1 +ℤ change) item.path
            ⊎ In (n, item.point.1 +ℤ change) (points t.work))
      → ((it : Item)
          → In it t.work
          → In it rest.work
            ⊎ ((n : ℕ) × In n (flow_at fn linkreg_return index ins).next
                × (it ≡ pushed n (item.point.1 +ℤ change) item.path)))
      → Inv (with_item item rest)
      → Inv t
  left-Inv item rest t index ins change f e seen low clear back keeps found origin inv = record {
    entered = grow entry inv.entered;
    closed = λ p m. ofp p (rw seen at m);
    paths = λ it m q k. path_of it q k (origin it m);
  }
    where
      after : ℤ
      after = item.point.1 +ℤ change

      old : (q : Point) → In q rest.seen → In q t.seen
      old q m = rw seen (inr m)

      on_path : (q : Point) → In q item.path → In q t.seen
      on_path q m = elim (inv.paths item (inl refl) q m) [
        | inl e ↦ rw (seen, e) (inl refl)
        | inr k ↦ old q k
      ]

      grow : (q : Point) → Known (with_item item rest) q → Known t q
      grow q (inl m) = inl (old q m)
      grow q (inr (inl e)) = inl (rw (seen, e) (inl refl))
      grow q (inr (inr m)) = inr (keeps q m)

      onward : (n : ℕ) → In n (flow_at fn linkreg_return index ins).next → Known t (n, after)
      onward n m = elim (found n m) [ inl k ↦ inl (on_path (n, after) k) | inr k ↦ inr k ]

      here : Closed t item.point
      here = record {
        settled = record {
          index = index;
          ins = ins;
          change = change;
          fetched = f;
          stepped = e;
          bounded = rw low (min_le rest.min_delta after).1;
          understood = clear;
          balanced = back;
        };
        onward = onward;
      }

      ofp : (p : Point) → In p (item.point ∷ rest.seen) → Closed t p
      ofp p (inl e) = rw e here
      ofp p (inr m) =
          Closed-mono (with_item item rest) t p grow (rw low (min_le rest.min_delta after).0)
            (inv.closed p m)

      path_of :
          (it : Item) (q : Point)
          → In q it.path
          → In it rest.work
            ⊎ ((n : ℕ) × In n (flow_at fn linkreg_return index ins).next
                × (it ≡ pushed n after item.path))
          → (q ≡ it.point) ⊎ In q t.seen
      path_of it q k (inl m) = elim (inv.paths it (inr m) q k) [
        | inl e ↦ inl e
        | inr j ↦ inr (old q j)
      ]
      path_of it q k (inr (n, m, e)) = fresh (rw e at k)
        where
          fresh : In q ((n, after) ∷ item.path) → (q ≡ it.point) ⊎ In q t.seen
          fresh (inl j) = inl (rw e j)
          fresh (inr j) = inr (on_path q j)

  step_point-Inv :
      (item : Item) (rest : Search) (index : ℕ) (ins : Instruction) (change : Option ℤ)
      (more : List Issue)
      → fetch fn item.point.0 ≡ some (index, ins)
      → stack_step ins ≡ change
      → (step_point fn linkreg_return
          (starts_of fn)
          item
          index
          ins
          change
          (record rest { seen = item.point ∷ rest.seen; issues = more })).issues
        ≡ []
      → (more ≡ [] → Inv (with_item item rest))
      → Inv (
          step_point fn linkreg_return
            (starts_of fn)
            item
            index
            ins
            change
            (record rest { seen = item.point ∷ rest.seen; issues = more }))
  unfolding step_point
  step_point-Inv item rest index ins none more f e h inv = absurd (cc)
  step_point-Inv item rest index ins (some change) more f e h inv =
      elim (Bool-cases (writes_sp_otherwise ins)) [
        | inl w ↦ absurd (ground arith)
        | inr w ↦ rw w (go (rw w at h))
      ]
    where
      after : ℤ
      after = item.point.1 +ℤ change

      base : Search
      base = record rest {
        seen = item.point ∷ rest.seen;
        issues = more;
        min_delta = min_ℤ rest.min_delta after;
      }

      left : Search
      left = leave_point item.point.0 after item.path (flow_at fn linkreg_return index ins) base

      go : left.issues ≡ [] → Inv left
      go k =
          let (p, clear, back) =
            leave_point-Pushed item.point.0 after item.path (flow_at fn linkreg_return index ins)
              base k in
          left-Inv item rest left index ins change f e p.same_seen p.same_min clear back p.keeps
            p.found p.origin (inv p.clean)

  visit-Inv :
      (item : Item) (rest s : Search) (found : Option (ℕ × Instruction))
      → fetch fn item.point.0 ≡ found
      → visit fn linkreg_return item rest found ≡ ok s
      → s.issues ≡ []
      → (rest.issues ≡ [] → Inv (with_item item rest))
      → Inv s
  unfolding visit
  visit-Inv item rest s none f h clean inv = absurd (cc)
  visit-Inv item rest s (some (index, ins)) f h clean inv =
      let same : step_point fn linkreg_return (starts_of fn) item index ins (stack_step ins) noted
          ≡ s =
        cc in
      rw (← same) (
        step_point-Inv item rest index ins (stack_step ins) noted.issues f refl (rw same clean)
          (λ m. inv (issue_if-eq-nil (writes_ra ins) item.point.0 _ rest.issues m).1))
    where
      noted : Search
      noted = record rest {
        seen = item.point ∷ rest.seen;
        issues =
            issue_if (writes_ra ins) item.point.0
              "link-register write/return convention is not proven" rest.issues;
      }

  pub round-Inv :
      (item : Item) (rest s : Search)
      → round fn linkreg_return item rest ≡ ok s
      → s.issues ≡ []
      → (rest.issues ≡ [] → Inv (with_item item rest))
      → Inv s
  unfolding round
  round-Inv item rest s h clean inv = elim (Bool-cases (was_seen item.point rest.seen)) [
    | inl t ↦ again t (cc)
    | inr t ↦ visit-Inv item rest s (fetch fn item.point.0) refl (rw t at h) clean inv
  ]
    where
      again : was_seen item.point rest.seen ≡ true → rest ≡ s → Inv s
      again t same = rw (← same) (again_rest (inv (rw same clean)))
        where
          met : In item.point rest.seen
          met =
              let (p, m, e) = any-true_some (same_point item.point) rest.seen t in
              rw (same_point-eq item.point p e) m

          grow : (q : Point) → Known (with_item item rest) q → Known rest q
          grow q (inl m) = inl m
          grow q (inr (inl e)) = inl (rw e met)
          grow q (inr (inr m)) = inr m

          again_rest : Inv (with_item item rest) → Inv rest
          again_rest i = record {
            entered = grow entry i.entered;
            closed =
                λ p m. Closed-mono (with_item item rest) rest p grow (omega arith) (i.closed p m);
            paths = λ it m. i.paths it (inr m);
          }
