-- ===== src/Interval/Acyclic.antt =====
-- The search for a cycle of calls at the end of `Engine.analyze` in
-- Tools/EmbeddedApplicationMacros/initialization_interval.py.
use axoloty_embedded.Prelude.{
  ℕ, zero, suc, ◌≡◌, ◌<◌, refl, Bool, true, false, List, [], ◌∷◌, if◌then◌else◌, ◌==◌, ==_iff, map,
  In, All, Bool-cases, inl, inr, arith, sym, All-In, ap,
}
use mathlib.Core.Path.{subst}
use axoloty_embedded.Outcome.{
  Outcome, ok, raised, recursion_error, ◌>>=◌, ◌>>◌, reject_if, >>=-eq-ok, ok-eq, reject_if-eq-ok,
}
use axoloty_embedded.Stack.Flow.{member}

abbrev pub Calls : Type 0
Calls = List (ℕ × ℕ)

-- `adjacency.get(node, ())`
unfoldable pub callees : ℕ → Calls → List ℕ
callees node [] = []
callees node ((caller, callee) ∷ calls) =
    let rest = callees node calls in if caller == node then callee ∷ rest else rest

-- The loop over nodes with what is completed; `step` is the search from one node.
unfoldable pub complete_all : (ℕ → List ℕ → Outcome (List ℕ)) → List ℕ → List ℕ → Outcome (List ℕ)
complete_all step [] completed = ok completed
complete_all step (node ∷ nodes) completed = do
  after ← step node completed
  complete_all step nodes after

-- `acyclic`, where `limit` calls of it may still stand on Python's stack; it returns the completed
-- nodes.
unfoldable pub acyclic : ℕ → Calls → List ℕ → ℕ → List ℕ → Outcome (List ℕ)
acyclic zero calls path node completed = raised recursion_error
acyclic (suc limit) calls path node completed =
    let below =
      complete_all (acyclic limit calls (node ∷ path)) (callees node calls) completed >>= λ after.
      ok (node ∷ after) in
    reject_if (member node path) "recursive call/tail graph at %s"
    >> (if member node completed then ok completed else below)

unfoldable pub check_acyclic : ℕ → Calls → Outcome (List ℕ)
check_acyclic limit calls =
    complete_all (acyclic limit calls []) (map (λ (call : ℕ × ℕ). call.0) calls) []

-- One call or more leads from a function to another.
pub data Leads (calls : Calls) : ℕ → ℕ → Type 0 where
  one : {from to : ℕ} → In to (callees from calls) → Leads calls from to
  more : {from by to : ℕ} → In by (callees from calls) → Leads calls by to → Leads calls from to

-- The callees of every completed node were completed before it.
abbrev pub IsOrdered : Calls → List ℕ → Type 0
IsOrdered calls [] = Unit {0}
IsOrdered calls (node ∷ rest) =
    All (λ callee. In callee rest) (callees node calls) × IsOrdered calls rest

member-In : (n : ℕ) (ns : List ℕ) → member n ns ≡ true → In n ns
member-In n [] h = absurd (cc)
member-In n (m ∷ ns) h = elim (Bool-cases (m == n)) [
  | inl e ↦ inl (sym ((==_iff m n).0 e))
  | inr e ↦ inr (member-In n ns (rw e at h))
]

-- What a run completes: it keeps the order, all that was completed, and adds the nodes.
abbrev Completes : Calls → List ℕ → List ℕ → List ℕ → Type 0
Completes calls nodes completed after =
    IsOrdered calls after
    × ((n : ℕ) → In n completed → In n after)
    × All (λ node. In node after) nodes

complete_all-Completes :
    (calls : Calls) (step : ℕ → List ℕ → Outcome (List ℕ))
    → ((node : ℕ) (completed after : List ℕ)
        → step node completed ≡ ok after
        → IsOrdered calls completed
        → Completes calls (node ∷ []) completed after)
    → (nodes completed after : List ℕ) → complete_all step nodes completed ≡ ok after
    → IsOrdered calls completed
    → Completes calls nodes completed after
unfolding complete_all
complete_all-Completes calls step each [] completed after h o =
    subst (Completes calls [] completed) (ok-eq h) (o, λ n m. m, tt)
complete_all-Completes calls step each (node ∷ nodes) completed after h o =
    let (next, e, k) = >>=-eq-ok (step node completed) _ h in
    let (o₁, keep₁, here) = each node completed next e o in
    let (o₂, keep₂, rest) = complete_all-Completes calls step each nodes next after k o₁ in
    (o₂, λ n m. keep₂ n (keep₁ n m), (keep₂ node here.0, rest))

acyclic-Completes :
    (limit : ℕ) (calls : Calls) (path : List ℕ) (node : ℕ) (completed after : List ℕ)
    → acyclic limit calls path node completed ≡ ok after
    → IsOrdered calls completed
    → Completes calls (node ∷ []) completed after
unfolding acyclic
acyclic-Completes zero calls path node completed after h o = absurd (cc)
acyclic-Completes (suc limit) calls path node completed after h o =
    let (fresh, h₁) = reject_if-eq-ok (member node path) _ _ h in
    elim (Bool-cases (member node completed)) [
      | inl e ↦
          let same : completed ≡ after = ok-eq (rw e at h₁) in
          subst (Completes calls (node ∷ []) completed) same
            (o, λ n m. m, (member-In node completed e, tt))
      | inr e ↦
          let (next, f, k) =
            >>=-eq-ok
              (complete_all (acyclic limit calls (node ∷ path)) (callees node calls) completed) _
              (rw e at h₁) in
          let (o₁, keep, all_done) =
            complete_all-Completes calls (acyclic limit calls (node ∷ path))
              (acyclic-Completes limit calls (node ∷ path)) (callees node calls) completed next f
              o in
          subst (Completes calls (node ∷ []) completed) (ok-eq k)
            ((all_done, o₁), λ n m. inr (keep n m), (inl refl, tt))
    ]

callee-In :
    (calls : Calls) (node : ℕ) (rest : List ℕ) (from to : ℕ)
    → IsOrdered calls (node ∷ rest)
    → In from (node ∷ rest)
    → In to (callees from calls)
    → In to rest
callee-In calls node rest from to o (inl e) c =
    All-In (λ n. In n rest) to (callees node calls) o.0
      (subst (λ (n : ℕ). In to (callees n calls)) e c)
callee-In calls node [] from to o (inr m) c = absurd m
callee-In calls node (next ∷ rest) from to o (inr m) c =
    inr (callee-In calls next rest from to o.1 m c)

-- A walk from a completed node ends among those completed before the first.
Leads-In :
    (calls : Calls) (node : ℕ) (rest : List ℕ) {from to : ℕ}
    → IsOrdered calls (node ∷ rest)
    → In from (node ∷ rest)
    → Leads calls from to
    → In to rest
Leads-In calls node rest o m (one c) = callee-In calls node rest _ _ o m c
Leads-In calls node rest o m (more c l) =
    Leads-In calls node rest o (inr (callee-In calls node rest _ _ o m c)) l

IsOrdered-no_cycle :
    (calls : Calls) (nodes : List ℕ) (n : ℕ)
    → IsOrdered calls nodes
    → In n nodes
    → ¬ Leads calls n n
IsOrdered-no_cycle calls [] n o m l = m
IsOrdered-no_cycle calls (node ∷ rest) n o m l =
    IsOrdered-no_cycle calls rest n o.1 (Leads-In calls node rest o m l) l

In-callers :
    (calls : Calls) (from to : ℕ)
    → In to (callees from calls)
    → In from (map (λ (call : ℕ × ℕ). call.0) calls)
unfolding callees
In-callers [] from to m = m
In-callers ((caller, callee) ∷ calls) from to m = elim (Bool-cases (caller == from)) [
  | inl e ↦ inl (sym ((==_iff caller from).0 e))
  | inr e ↦ inr (In-callers calls from to (rw e at m))
]

Leads-In_callers :
    (calls : Calls) {from to : ℕ}
    → Leads calls from to
    → In from (map (λ (call : ℕ × ℕ). call.0) calls)
Leads-In_callers calls (one c) = In-callers calls _ _ c
Leads-In_callers calls (more c l) = In-callers calls _ _ c

-- If the search passes, then no function leads back to itself by calls.
pub check_acyclic-no_cycle :
    (limit : ℕ) (calls : Calls) (completed : List ℕ)
    → check_acyclic limit calls ≡ ok completed
    → (n : ℕ) → ¬ Leads calls n n
unfolding check_acyclic
check_acyclic-no_cycle limit calls completed h n l =
    let callers = map (λ (call : ℕ × ℕ). call.0) calls in
    let (o, keep, done) =
      complete_all-Completes calls (acyclic limit calls []) (acyclic-Completes limit calls [])
        callers [] completed h tt in
    IsOrdered-no_cycle calls completed n o
      (All-In (λ m. In m completed) n callers done (Leads-In_callers calls l)) l

-- What finds no cycle returns, if no walk by calls is longer than the stack.
abbrev Falls : Calls → (ℕ → ℕ) → Type 0
Falls calls rank = (from to : ℕ) → In to (callees from calls) → rank to < rank from

abbrev Above : (ℕ → ℕ) → ℕ → List ℕ → Type 0
Above rank n path = All (λ m. rank n < rank m) path

Returns : Outcome (List ℕ) → Type 0
Returns run = (after : List ℕ) × (run ≡ ok after)

not_on_path : (rank : ℕ → ℕ) (n : ℕ) (path : List ℕ) → Above rank n path → member n path ≡ false
not_on_path rank n [] a = refl
not_on_path rank n (m ∷ path) a = elim (Bool-cases (m == n)) [
  | inl e ↦ absurd (omega (arith, a.0, ap rank ((==_iff m n).0 e)))
  | inr e ↦ rw e (not_on_path rank n path a.1)
]

complete_all-Returns :
    (step : ℕ → List ℕ → Outcome (List ℕ)) (nodes : List ℕ)
    → ((node : ℕ) (completed : List ℕ) → In node nodes → Returns (step node completed))
    → (completed : List ℕ) → Returns (complete_all step nodes completed)
unfolding complete_all Returns
complete_all-Returns step [] each completed = (completed, refl)
complete_all-Returns step (node ∷ nodes) each completed =
    let (next, e) = each node completed (inl refl) in
    let (after, f) = complete_all-Returns step nodes (λ n c m. each n c (inr m)) next in
    (after, rw e f)

Above-fall :
    (rank : ℕ → ℕ) (n m : ℕ) (path : List ℕ)
    → rank m < rank n
    → Above rank n path
    → Above rank m path
Above-fall rank n m [] l a = tt
Above-fall rank n m (k ∷ path) l a = (omega (arith, l, a.0), Above-fall rank n m path l a.1)

acyclic-Returns :
    (limit : ℕ) (calls : Calls) (rank : ℕ → ℕ) (path : List ℕ) (node : ℕ) (completed : List ℕ)
    → Falls calls rank
    → Above rank node path
    → rank node < limit
    → Returns (acyclic limit calls path node completed)
unfolding acyclic Returns
acyclic-Returns zero calls rank path node completed f a h = absurd (omega arith)
acyclic-Returns (suc limit) calls rank path node completed f a h =
    let (after, e) =
      complete_all-Returns (acyclic limit calls (node ∷ path)) (callees node calls)
        (λ n c m.
          let l = f node n m in
          acyclic-Returns limit calls rank (node ∷ path) n c f (l, Above-fall rank node n path l a)
            (omega (arith, l, h)))
        completed in
    rw (not_on_path rank node path a) (chosen (member node completed) after e)
  where
    chosen :
        (b : Bool) (after : List ℕ)
        → complete_all (acyclic limit calls (node ∷ path)) (callees node calls) completed ≡ ok after
        → Returns (
            if b
            then ok completed
            else complete_all (acyclic limit calls (node ∷ path)) (callees node calls) completed
              >>= λ after. ok (node ∷ after))
    chosen true after e = (completed, refl)
    chosen false after e = (node ∷ after, rw e refl)

-- If every call leads to a function of smaller rank, and the ranks are below the number of calls
-- that the search may nest, then the search passes.
pub check_acyclic-total :
    (limit : ℕ) (calls : Calls) (rank : ℕ → ℕ)
    → ((from to : ℕ) → In to (callees from calls) → rank to < rank from)
    → ((n : ℕ) → rank n < limit)
    → (completed : List ℕ) × (check_acyclic limit calls ≡ ok completed)
unfolding check_acyclic Returns
check_acyclic-total limit calls rank f h =
    complete_all-Returns (acyclic limit calls []) (map (λ (call : ℕ × ℕ). call.0) calls)
      (λ n c m. acyclic-Returns limit calls rank [] n c f tt (h n)) []
