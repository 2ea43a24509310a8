-- ===== src/Stack/Frame/Measure.antt =====
-- A measure of the search: each round makes it smaller.
use native.Mathlib.Nat.{pow-suc}
use axoloty_embedded.Stack.Frame.Rounds.{by_earlier, one, noted}
use axoloty_embedded.Prelude.{
  ℕ, zero, suc, ◌+◌, ◌-◌, ◌*◌, ◌^◌, ◌≤◌, ◌<◌, ◌≡◌, refl, Bool, true, false, Option, none, some,
  List, [], ◌∷◌, length, arith, All, inl, inr, ap, Bool-cases,
}
use axoloty_embedded.Prelude.Int.{ℤ, ◌+ℤ◌}
use axoloty_embedded.Stack.Instruction.{Instruction, Function}
use axoloty_embedded.Stack.Flow.{Flow, member, refuse}
use axoloty_embedded.Stack.Flow.Inside.{Inside, Inside-if, successors-Inside}
use axoloty_embedded.Stack.Frame.{
  Point, Item, Search, earlier_delta, push_successors, leave_point, step_point, starts_of, flow_of,
  min_ℤ, writes_sp_otherwise,
}
use axoloty_embedded.Stack.Frame.Paths.{IsFine}

pub pow3 : ℕ → ℕ
pow3 zero = 1
pow3 (suc k) = 3 * pow3 k

pub pow3_pos : (k : ℕ) → 0 < pow3 k
unfolding pow3
pow3_pos zero = omega arith
pow3_pos (suc k) = omega (arith, pow3_pos k)

pub pow3-suc : (k : ℕ) → pow3 (suc k) ≡ 3 * pow3 k
unfolding pow3
pow3-suc k = refl

pub pow3-eq : (k : ℕ) → pow3 k ≡ 3 ^ k
unfolding pow3
pow3-eq zero = refl
pow3-eq (suc k) = omega (arith, pow3-eq k, pow-suc 3 k)

-- An item whose path is fine, and begins at its point.
pub record Tame (starts : List ℕ) (item : Item) : Type 0 where
  pub fine : IsFine starts item.path
  pub known : member item.point.0 starts ≡ true

abbrev pub room : ℕ → List Point → ℕ
room n path = suc n - length path

abbrev pub total : ℕ → List Item → ℕ
total n [] = 0
total n (item ∷ work) = pow3 (room n item.path) + total n work

few_mul : (a p : ℕ) → a ≤ 2 → a * p ≤ 2 * p
few_mul a p h = grind arith

-- The work of `t` is tame, and weighs at most `extra` more than that of `s`.
pub record Grows (starts : List ℕ) (n extra : ℕ) (s t : Search) : Type 0 where
  pub tame : All (Tame starts) t.work
  pub weight : total n t.work ≤ total n s.work + extra

module _ (starts : List ℕ) (n pc : ℕ) (after : ℤ) (path : List Point)
    (fine : IsFine starts path) where
  deeper : (k : ℕ) → suc n - suc k ≡ n - k
  deeper k = omega arith

  one-Grows :
      (next : ℕ) (s : Search) (o : Option ℤ)
      → earlier_delta next path ≡ o
      → member next starts ≡ true
      → All (Tame starts) s.work
      → Grows starts n (pow3 (n - length path)) s (by_earlier pc after path next s o)
  one-Grows next s none e m t = record {
    tame = (record { fine = (e, m, fine); known = m }, t);
    weight = omega (arith, ap pow3 (deeper (length path)));
  }
  one-Grows next s (some d) e m t = record { tame = t; weight = omega arith }

  -- Each successor adds at most a third of the item's weight.
  pub push_successors-Grows :
      (next : List ℕ) (s : Search)
      → All (λ m. member m starts ≡ true) next
      → All (Tame starts) s.work
      → Grows starts n
          (length next * pow3 (n - length path))
          s
          (push_successors pc after path next s)
  unfolding push_successors
  push_successors-Grows [] s b t = record { tame = t; weight = omega arith }
  push_successors-Grows (m ∷ next) s b t =
      let first = one-Grows m s (earlier_delta m path) refl b.0 t in
      let rest = push_successors-Grows next (one pc after path m s) b.1 first.tame in
      record { tame = rest.tame; weight = omega (arith, first.weight, rest.weight) }

  pub leave_point-Grows :
      (flow : Flow) (s : Search)
      → Inside starts flow
      → All (Tame starts) s.work
      → Grows starts n (2 * pow3 (n - length path)) s (leave_point pc after path flow s)
  unfolding leave_point
  leave_point-Grows flow s inside t = go flow.exit
    where
      few : length flow.next * pow3 (n - length path) ≤ 2 * pow3 (n - length path)
      few = few_mul (length flow.next) (pow3 (n - length path)) inside.few

      go :
          (exit : Bool)
          → Grows starts n
              (2 * pow3 (n - length path))
              s
              (push_successors pc after path flow.next (noted pc after path flow s exit))
      go true =
          let g =
            push_successors-Grows flow.next (noted pc after path flow s true) inside.belongs t in
          record { tame = g.tame; weight = omega (arith, g.weight, few) }
      go false =
          let g =
            push_successors-Grows flow.next (noted pc after path flow s false) inside.belongs t in
          record { tame = g.tame; weight = omega (arith, g.weight, few) }

module _ (fn : Function) (linkreg_return : Bool) where
  abbrev starts : List ℕ
  starts = starts_of fn

  pub flow_of-Inside :
      (index : ℕ) (ins : Instruction) → Inside starts (flow_of fn linkreg_return starts index ins)
  unfolding flow_of
  flow_of-Inside index ins =
      Inside-if starts _ (refuse "unproven jr t0 continuation without a jal t0 caller") _
        (record { belongs = tt; few = omega arith }) (successors-Inside starts fn index ins)

  pub step_point-Grows :
      (n index : ℕ) (item : Item) (ins : Instruction) (change : Option ℤ) (s : Search)
      → IsFine starts item.path
      → All (Tame starts) s.work
      → Grows starts n
          (2 * pow3 (n - length item.path))
          s
          (step_point fn linkreg_return starts item index ins change s)
  unfolding step_point
  step_point-Grows n index item ins none s f t = record { tame = t; weight = omega arith }
  step_point-Grows n index item ins (some change) s f t =
      elim (Bool-cases (writes_sp_otherwise ins)) [
        | inl e ↦ rw e (record { tame = t; weight = omega arith })
        | inr e ↦ rw e (left)
      ]
    where
      after : ℤ
      after = item.point.1 +ℤ change

      base : Search
      base = record s { min_delta = min_ℤ s.min_delta after }

      left : Grows starts n (2 * pow3 (n - length item.path)) s (
          leave_point item.point.0 after item.path
            (flow_of fn linkreg_return starts index ins)
            base)
      left =
          let g =
            leave_point-Grows starts n item.point.0 after item.path f
              (flow_of fn linkreg_return starts index ins) base (flow_of-Inside index ins) t in
          record { tame = g.tame; weight = g.weight }
