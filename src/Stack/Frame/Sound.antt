-- ===== src/Stack/Frame/Sound.antt =====
-- The stack bound of `analyze_frame` holds on every walk through the function.
use mathlib.Core.Path.{subst}
use axoloty_embedded.Prelude.{
  ℕ, ◌≡◌, refl, Bool, false, Option, none, some, List, [], ◌∷◌, In, ◌⊎◌, inl, inr, not, suc, zero,
  sym, ◌∙◌, ap, arith, ◌==◌, ==_iff, not-false, ◌+◌,
}
use axoloty_embedded.Prelude.Int.{ℤ, pos, ◌+ℤ◌, ◌-ℤ◌}
use axoloty_embedded.Outcome.{Outcome, ok, raised}
use axoloty_embedded.Stack.Frame.{
  Point, Item, Search, round, explore, Frame, analyze_frame, report, first_search, Function,
  continue_with, take_item, Instruction, stack_step, report_of, gap_issues, body_issues,
  analyze_body, Issue, frame_fuel,
}
use axoloty_embedded.Stack.Frame.Invariant.{Inv, Closed, round-Inv}
use axoloty_embedded.Stack.Frame.Reach.{Walk, then_edge, Edge, start, edge, Settled}
use axoloty_embedded.Stack.Frame.Rounds.{Known, points, issue_if-eq-nil}

-- A loop that ends without issues has kept the invariant and emptied `work`.
abbrev Finishes : (Function → Bool → Point → (Search → Option (Outcome Search)) → Type 0)
Finishes fn linkreg_return entry loop =
    (s r : Search)
    → loop s ≡ some (ok r)
    → r.issues ≡ []
    → (s.issues ≡ [] → Inv fn linkreg_return entry s)
    → Inv fn linkreg_return entry r × (r.work ≡ [])

some_pair :
    (i j : ℕ) (x y : Instruction)
    → ◌≡◌ {A = Option (ℕ × Instruction)} (some (i, x)) (some (j, y))
    → (i ≡ j) × (x ≡ y)
some_pair i j x y h = ground arith

some_same : (a b : ℤ) → some a ≡ some b → a ≡ b
some_same a b h = cc

module _ (fn : Function) (linkreg_return : Bool) (entry : Point) where
  continue_with-Finishes :
      (loop : Search → Option (Outcome Search))
      → Finishes fn linkreg_return entry loop
      → (item : Item) (rest r : Search) (o : Outcome Search) → round fn linkreg_return item rest ≡ o
      → continue_with loop o ≡ some (ok r)
      → r.issues ≡ []
      → (rest.issues ≡ [] → Inv fn linkreg_return entry (record rest { work = item ∷ rest.work }))
      → Inv fn linkreg_return entry r × (r.work ≡ [])
  continue_with-Finishes loop fin item rest r (raised e) q h clean inv = absurd (cc)
  continue_with-Finishes loop fin item rest r (ok s) q h clean inv =
      fin s r h clean (λ c. round-Inv fn linkreg_return entry item rest s q c inv)

  take_item-Finishes :
      (loop : Search → Option (Outcome Search))
      → Finishes fn linkreg_return entry loop
      → (s r : Search) (work : List Item) → s.work ≡ work
      → take_item loop fn linkreg_return s work ≡ some (ok r)
      → r.issues ≡ []
      → (s.issues ≡ [] → Inv fn linkreg_return entry (record s { work = work }))
      → Inv fn linkreg_return entry r × (r.work ≡ [])
  take_item-Finishes loop fin s r [] e h clean inv =
      let same : s ≡ r = cc in
      (
        subst (Inv fn linkreg_return entry) same (
            subst (λ work. Inv fn linkreg_return entry (record s { work = work })) (sym e)
              (inv (rw same clean))),
        rw (← same) e,
      )
  take_item-Finishes loop fin s r (item ∷ rest) e h clean inv =
      continue_with-Finishes loop fin item (record s { work = rest }) r _ refl h clean inv

  explore-Finishes : (fuel : ℕ) → Finishes fn linkreg_return entry (explore fuel fn linkreg_return)
  unfolding explore
  explore-Finishes zero s r h clean inv = absurd (cc)
  explore-Finishes (suc fuel) s r h clean inv =
      take_item-Finishes (explore fuel fn linkreg_return) (explore-Finishes fuel) s r s.work refl h
        clean inv

  none_left : (work : List Item) (q : Point) → work ≡ [] → ¬ In q (points work)
  none_left [] q e m = m
  none_left (item ∷ work) q e m = cc

  settle : (r : Search) → r.work ≡ [] → (q : Point) → Known r q → In q r.seen
  settle r done q (inl m) = m
  settle r done q (inr m) = absurd (none_left r.work q done m)

  Edge-seen :
      (r : Search)
      → Inv fn linkreg_return entry r
      → r.work ≡ []
      → (p q : Point) → Closed fn linkreg_return entry r p
      → Edge fn linkreg_return p q
      → In q r.seen
  Edge-seen r inv done p q c (edge {pc = pc} {d = d} {next = next} index ins change f e m) =
      let (i, n) =
        some_pair (c.settled.index) index c.settled.ins ins (sym c.settled.fetched ∙ f) in
      let change_same : c.settled.change ≡ change =
        some_same c.settled.change change (sym c.settled.stepped ∙ (ap stack_step n ∙ e)) in
      settle r done (next, d +ℤ change) (rw (← change_same) (c.onward next (rw (i, n) m)))

  -- At the end every walk stays among the settled points.
  Walk-seen :
      (r : Search)
      → Inv fn linkreg_return entry r
      → r.work ≡ []
      → (p : Point) → Walk fn linkreg_return entry p
      → In p r.seen
  Walk-seen r inv done p start = settle r done entry inv.entered
  Walk-seen r inv done q (then_edge {p = p} w e) =
      Edge-seen r inv done p q (inv.closed p (Walk-seen r inv done p w)) e

-- The run of the loop behind a report.
report_of-eq :
    (fn : Function) (o : Option (Outcome Search)) (frame : Frame)
    → report_of fn o ≡ some (ok frame)
    → (r : Search) × (o ≡ some (ok r)) × (report fn r ≡ frame)
unfolding report_of
report_of-eq fn none frame h = absurd (cc)
report_of-eq fn (some (raised e)) frame h = absurd (cc)
report_of-eq fn (some (ok r)) frame h = (r, refl, cc)

report-bytes :
    (fn : Function) (r : Search) (bytes : ℤ)
    → (report fn r).frame_bytes ≡ some bytes
    → pos 0 -ℤ bytes ≡ r.min_delta
unfolding report ◌-ℤ◌
report-bytes fn r bytes h = ground arith

report-clean :
    (fn : Function) (r : Search)
    → (report fn r).unresolved ≡ []
    → (r.issues ≡ []) × ((r.exits == 0) ≡ false)
unfolding report
report-clean fn r h = let (e, c) = issue_if-eq-nil (r.exits == 0) fn.start _ r.issues h in (c, e)

gap_issues-eq-nil :
    (instructions : List Instruction) (issues : List Issue)
    → gap_issues instructions issues ≡ []
    → issues ≡ []
unfolding gap_issues
gap_issues-eq-nil [] issues h = h
gap_issues-eq-nil (left ∷ []) issues h = h
gap_issues-eq-nil (left ∷ right ∷ rest) issues h =
    (issue_if-eq-nil (not (left.address + left.size == right.address)) left.address _ issues
      (gap_issues-eq-nil (right ∷ rest) _ h)).1

body_issues-start :
    (fn : Function) (first : Instruction) → body_issues fn first ≡ [] → first.address ≡ fn.start
unfolding body_issues
body_issues-start fn first h =
    let (e, c) =
      issue_if-eq-nil (not (first.address == fn.start)) fn.start _ _
        (gap_issues-eq-nil fn.instructions _ h) in
    (==_iff first.address fn.start).0 (not-false _ e)

-- The entry of the search is known from the beginning.
first-Inv :
    (fn : Function) (linkreg_return : Bool) (first : Instruction)
    → (first_search fn first).issues ≡ []
    → Inv fn linkreg_return (fn.start, pos 0) (first_search fn first)
unfolding first_search
first-Inv fn linkreg_return first clean = record {
  entered = inr (inl (entry_same (sym (body_issues-start fn first clean))));
  closed = λ p m. absurd m;
  paths = λ it m q k. elim m [
    | inl e ↦ inl (only it q (ap (λ (i : Item). i.path) e) (ap (λ (i : Item). i.point) e) k)
    | inr n ↦ absurd n
  ];
}
  where
    entry_same : fn.start ≡ first.address → ◌≡◌ {A = Point} (fn.start, pos 0) (first.address, pos 0)
    entry_same e = ap (λ (pc : ℕ). let p : Point = (pc, pos 0) in p) e

    only :
        (it : Item) (q : Point)
        → it.path ≡ (first.address, pos 0) ∷ []
        → it.point ≡ (first.address, pos 0)
        → In q it.path
        → q ≡ it.point
    only it q e f k = elim (single (rw e at k)) [ inl g ↦ g ∙ sym f | inr n ↦ absurd n ]
      where
        single : In q ((first.address, pos 0) ∷ []) → (q ≡ (first.address, pos 0)) ⊎ ⊥
        single j = j

body_sound :
    (fn : Function) (linkreg_return : Bool) (frame : Frame) (bytes : ℤ) (body : List Instruction)
    → analyze_body fn linkreg_return body ≡ some (ok frame)
    → frame.unresolved ≡ []
    → frame.frame_bytes ≡ some bytes
    → (p : Point) → Walk fn linkreg_return (fn.start, pos 0) p
    → Settled fn linkreg_return (pos 0 -ℤ bytes) p
unfolding analyze_body
body_sound fn linkreg_return frame bytes [] h clean size p w = absurd (ground arith)
body_sound fn linkreg_return frame bytes (first ∷ rest) h clean size p w =
    let (r, run, same) = report_of-eq fn _ frame h in
    let (no_issue, exits) = report-clean fn r (ap (λ (f : Frame). f.unresolved) same ∙ clean) in
    let (inv, done) =
      explore-Finishes fn linkreg_return (fn.start, pos 0) (frame_fuel fn) (first_search fn first) r
        run no_issue (first-Inv fn linkreg_return first) in
    let seen = Walk-seen fn linkreg_return (fn.start, pos 0) r inv done p w in
    let lowest : pos 0 -ℤ bytes ≡ r.min_delta =
      report-bytes fn r bytes (ap (λ (f : Frame). f.frame_bytes) same ∙ size) in
    subst (λ b. Settled fn linkreg_return b p) (sym lowest) (inv.closed p seen).settled

-- A clean report with a frame size: on every walk from the function's start each point is settled,
-- sp never falls further below its entry value than the frame's bytes, and every return finds sp
-- back at its entry value.
pub analyze_frame_sound :
    (fn : Function) (linkreg_return : Bool) (frame : Frame) (bytes : ℤ)
    → analyze_frame fn linkreg_return ≡ some (ok frame)
    → frame.unresolved ≡ []
    → frame.frame_bytes ≡ some bytes
    → (p : Point) → Walk fn linkreg_return (fn.start, pos 0) p
    → Settled fn linkreg_return (pos 0 -ℤ bytes) p
unfolding analyze_frame
analyze_frame_sound fn linkreg_return frame bytes h clean size p w =
    body_sound fn linkreg_return frame bytes fn.instructions h clean size p w
