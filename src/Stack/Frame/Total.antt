-- ===== src/Stack/Frame/Total.antt =====
-- `analyze_frame` always returns a report: the loop ends, and every address that it looks up is
-- that of an instruction.
use axoloty_embedded.Prelude.{
  ℕ, zero, suc, ◌+◌, ◌-◌, ◌*◌, ◌^◌, ◌≤◌, ◌<◌, ◌≡◌, refl, Bool, true, Option, none, some, List, [],
  ◌∷◌, ◌==◌, if◌then◌else◌, length, arith, All, map, get_elem?, Bool-cases, inl, inr, ap, sym, ◌∙◌,
}
use axoloty_embedded.Prelude.Int.{pos}
use axoloty_embedded.Outcome.{Outcome, ok}
use axoloty_embedded.Stack.Instruction.{Instruction, Function}
use axoloty_embedded.Stack.Flow.{member}
use axoloty_embedded.Stack.Frame.{
  Point, Item, Search, Frame, index_from, fetch, visit, round, explore, take_item, continue_with,
  starts_of, was_seen, analyze_body, analyze_frame, first_search, frame_fuel, report_of, report,
  with_index, stack_step, issue_if, writes_ra,
}
use axoloty_embedded.Stack.Frame.Paths.{length-IsFine}
use axoloty_embedded.Stack.Frame.Measure.{
  pow3, pow3_pos, pow3-suc, pow3-eq, Tame, room, total, Grows, step_point-Grows,
}

-- An index of `body`, counted from `i`.
abbrev PointsAt : ℕ → List Instruction → ℕ → Type 0
PointsAt i body j = (k : ℕ) × (ins : Instruction) × (j ≡ i + k) × (get_elem? body k ≡ some ins)

PointsAt-next :
    (i j : ℕ) (ins : Instruction) (body : List Instruction)
    → PointsAt (suc i) body j
    → PointsAt i (ins ∷ body) j
PointsAt-next i j ins body (k, found, e, h) = (suc k, found, omega (arith, e), h)

index_from-PointsAt :
    (i pc j : ℕ) (body : List Instruction) → index_from i pc body ≡ some j → PointsAt i body j
unfolding index_from
index_from-PointsAt i pc j [] h = absurd (cc)
index_from-PointsAt i pc j (ins ∷ body) h =
    later (index_from (suc i) pc body) (index_from-PointsAt (suc i) pc j body) h
  where
    later :
        (o : Option ℕ)
        → (o ≡ some j → PointsAt (suc i) body j)
        → elim o [ some k ↦ some k | none ↦ if ins.address == pc then some i else none ] ≡ some j
        → PointsAt i (ins ∷ body) j
    later none step e = elim (Bool-cases (ins.address == pc)) [
      | inl t ↦ (zero, ins, ground arith, refl)
      | inr f ↦ absurd (ground arith)
    ]
    later (some k) step e = PointsAt-next i j ins body (step e)

index_from_found :
    (i pc : ℕ) (body : List Instruction)
    → member pc (map (λ ins. ins.address) body) ≡ true
    → (j : ℕ) × (index_from i pc body ≡ some j)
unfolding index_from
index_from_found i pc [] h = absurd (cc)
index_from_found i pc (ins ∷ body) h =
    later (index_from (suc i) pc body) (index_from_found (suc i) pc body)
  where
    later :
        (o : Option ℕ)
        → (member pc (map (λ ins. ins.address) body) ≡ true → (j : ℕ) × (o ≡ some j))
        → (j : ℕ) × (elim o [ some k ↦ some k | none ↦ if ins.address == pc then some i else none ]
            ≡ some j)
    later (some k) step = (k, refl)
    later none step = elim (Bool-cases (ins.address == pc)) [
      | inl t ↦ (i, ground arith)
      | inr f ↦ absurd (ground (arith, (step (ground arith)).1))
    ]

pub fetch_total :
    (fn : Function) (pc : ℕ)
    → member pc (starts_of fn) ≡ true
    → (index : ℕ) × (ins : Instruction) × (fetch fn pc ≡ some (index, ins))
unfolding fetch starts_of
fetch_total fn pc h =
    let found = index_from_found 0 pc fn.instructions h in
    let at = index_from-PointsAt 0 pc found.0 fn.instructions found.1 in
    (found.0, at.1, looked found.0 at.0 at.1 (omega (arith, at.2)) at.3 found.1)
  where
    looked :
        (j k : ℕ) (ins : Instruction)
        → j ≡ k
        → get_elem? fn.instructions k ≡ some ins
        → index_from 0 pc fn.instructions ≡ some j
        → with_index fn.instructions (index_from 0 pc fn.instructions) ≡ some (j, ins)
    looked j k ins e h g =
        ap (λ o. with_index fn.instructions o) g
        ∙ ap (λ (o : Option Instruction). elim o [ none ↦ none | some x ↦ some (j, x) ])
            (ap (get_elem? fn.instructions) e ∙ h)

module _ (fn : Function) (linkreg_return : Bool) where
  abbrev size : ℕ
  size = length (starts_of fn)

  -- What a round leaves: less work by weight, all of it tame.
  record Lighter (bound : ℕ) (o : Outcome Search) : Type 0 where
    result : Search
    returns : o ≡ ok result
    tame : All (Tame (starts_of fn)) result.work
    weight : total size result.work < bound

  three : (n l : ℕ) → l ≤ n → pow3 (suc n - l) ≡ 3 * pow3 (n - l)
  three n l h = omega (arith, pow3-suc (n - l), ap pow3 (near n l h))
    where
      near : (n l : ℕ) → l ≤ n → suc n - l ≡ suc (n - l)
      near n l h = omega arith

  module _ (item : Item) (s : Search) (known : Tame (starts_of fn) item)
      (tame : All (Tame (starts_of fn)) s.work) where
    abbrev noted_search : Instruction → Search
    noted_search ins = record s {
      seen = item.point ∷ s.seen;
      issues =
          issue_if (writes_ra ins) item.point.0
            "link-register write/return convention is not proven" s.issues;
    }

    stepped_Lighter :
        (t : Search)
        → Grows (starts_of fn) size (2 * pow3 (size - length item.path)) s t
        → Lighter (pow3 (room size item.path) + total size s.work) (ok t)
    stepped_Lighter t grown = record {
      result = t;
      returns = refl;
      tame = grown.tame;
      weight = omega (
        arith,
        grown.weight,
        pow3_pos (size - length item.path),
        three size (length item.path) (length-IsFine (starts_of fn) item.path known.fine),
      );
    }

    visit-Lighter :
        (found : (index : ℕ) × (ins : Instruction) × (fetch fn item.point.0 ≡ some (index, ins)))
        → Lighter
            (pow3 (room size item.path) + total size s.work)
            (visit fn linkreg_return item s (fetch fn item.point.0))
    unfolding visit
    visit-Lighter (index, ins, e) =
        let grown =
          step_point-Grows fn linkreg_return size index item ins (stack_step ins) (noted_search ins)
            known.fine tame in
        rw e (stepped_Lighter _ (record { tame = grown.tame; weight = grown.weight }))

    round-Lighter :
        Lighter (pow3 (room size item.path) + total size s.work) (round fn linkreg_return item s)
    unfolding round
    round-Lighter = elim (Bool-cases (was_seen item.point s.seen)) [
      | inl e ↦ rw e (record {
        result = s;
        returns = refl;
        tame = tame;
        weight = omega (arith, pow3_pos (room size item.path));
      })
      | inr e ↦ rw e (visit-Lighter (fetch_total fn item.point.0 known.known))
    ]

  -- A loop that ends on less than `fuel` of tame work.
  abbrev Ends : ℕ → (Search → Option (Outcome Search)) → Type 0
  Ends fuel loop =
      (s : Search)
      → All (Tame (starts_of fn)) s.work
      → total size s.work < fuel
      → (t : Search) × (loop s ≡ some (ok t))

  continue_with-Ends :
      (fuel bound : ℕ) (loop : Search → Option (Outcome Search)) (o : Outcome Search)
      → Ends fuel loop
      → Lighter bound o
      → bound < suc fuel
      → (t : Search) × (continue_with loop o ≡ some (ok t))
  continue_with-Ends fuel bound loop o ends l b =
      let rest = ends l.result l.tame (omega (arith, l.weight, b)) in
      (rest.0, ap (λ o. continue_with loop o) l.returns ∙ rest.1)

  take_item-Ends :
      (fuel : ℕ) (loop : Search → Option (Outcome Search)) (s : Search) (work : List Item)
      → Ends fuel loop
      → All (Tame (starts_of fn)) work
      → total size work < suc fuel
      → (t : Search) × (take_item loop fn linkreg_return s work ≡ some (ok t))
  take_item-Ends fuel loop s [] ends tame h = (s, refl)
  take_item-Ends fuel loop s (item ∷ work) ends tame h =
      continue_with-Ends fuel (pow3 (room size item.path) + total size work) loop
        (round fn linkreg_return item (record s { work = work })) ends
        (round-Lighter item (record s { work = work }) tame.0 tame.1) h

  -- With more fuel than the weight of its work the search ends.
  explore-Ends : (fuel : ℕ) → Ends fuel (explore fuel fn linkreg_return)
  unfolding explore
  explore-Ends zero s tame h = absurd (omega (arith, h))
  explore-Ends (suc fuel) s tame h =
      take_item-Ends fuel (explore fuel fn linkreg_return) s s.work (explore-Ends fuel) tame h

first-Tame :
    (fn : Function) (first : Instruction) (rest : List Instruction)
    → first ∷ rest ≡ fn.instructions
    → All (Tame (starts_of fn)) (first_search fn first).work
unfolding first_search starts_of
first-Tame fn first rest e = (record { fine = (refl, own, tt); known = own }, tt)
  where
    own : member first.address (map (λ ins. ins.address) fn.instructions) ≡ true
    own = rw (sym e) (ground arith)

length-starts_of : (fn : Function) → length (starts_of fn) ≡ length fn.instructions
unfolding starts_of
length-starts_of fn = go fn.instructions
  where
    go : (body : List Instruction) → length (map (λ ins. ins.address) body) ≡ length body
    go [] = refl
    go (ins ∷ body) = omega (arith, go body)

room_alone : (n : ℕ) (p : Point) → pow3 (room n (p ∷ [])) ≡ pow3 n
room_alone n p = ap pow3 alone
  where
    alone : room n (p ∷ []) ≡ n
    alone = omega arith

light_weight : (n m w : ℕ) → n ≡ m → w ≡ pow3 n → w + 0 < 3 ^ suc m
light_weight n m w e h = omega (arith, h, ap pow3 e, pow3-eq (suc m), pow3-suc m, pow3_pos m)

first_light :
    (fn : Function) (first : Instruction)
    → total (length (starts_of fn)) (first_search fn first).work < frame_fuel fn
unfolding first_search
first_light fn first =
    light_weight (length (starts_of fn)) (length fn.instructions) _ (length-starts_of fn)
      (room_alone (length (starts_of fn)) (first.address, pos 0))

-- For every function, whatever its instructions are, `analyze_frame` ends within its fuel and
-- returns a report: no address that it looks up is missing, and nothing is raised.
pub analyze_frame-total :
    (fn : Function) (linkreg_return : Bool)
    → (frame : Frame) × (analyze_frame fn linkreg_return ≡ some (ok frame))
unfolding analyze_frame analyze_body report_of
analyze_frame-total fn linkreg_return = go fn.instructions refl
  where
    go :
        (body : List Instruction)
        → body ≡ fn.instructions
        → (frame : Frame) × (analyze_body fn linkreg_return body ≡ some (ok frame))
    go [] e = (_, refl)
    go (first ∷ rest) e =
        let done =
          explore-Ends fn linkreg_return (frame_fuel fn) (first_search fn first)
            (first-Tame fn first rest e) (first_light fn first) in
        (report fn done.0, rw done.1 refl)
