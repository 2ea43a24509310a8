-- ===== src/Stack/Frame/Rounds.antt =====
-- One round of the search: what it notes of a point, and what it leaves in `work`.
use axoloty_embedded.Prelude.{
  ℕ, ◌≡◌, refl, Bool, true, false, Option, none, some, List, [], ◌∷◌, In, arith, ◌⊎◌, inl, inr,
  if◌then◌else◌, not, String, Bool-cases, ◌==◌, ap, ◌∙◌, not-false, ◌+◌,
}
use axoloty_embedded.Prelude.Int.{ℤ, pos, eq_ℤ, eq_ℤ_iff}
use axoloty_embedded.Stack.Frame.{
  Point, Item, Search, Issue, issue_if, earlier_delta, push_successors, Flow, has_problem,
  leave_point, problem_text,
}

abbrev pub points : List Item → List Point
points [] = []
points (item ∷ work) = item.point ∷ points work

-- Popped before, or still to come.
abbrev pub Known : Search → Point → Type 0
Known s q = In q s.seen ⊎ In q (points s.work)

pub issue_if-eq-nil :
    (test : Bool) (pc : ℕ) (message : String) (issues : List Issue)
    → issue_if test pc message issues ≡ []
    → (test ≡ false) × (issues ≡ [])
issue_if-eq-nil test pc message issues h = ground arith

earlier_delta-In :
    (pc : ℕ) (path : List Point) {d : ℤ} → earlier_delta pc path ≡ some d → In (pc, d) path
earlier_delta-In pc [] h = cc
earlier_delta-In pc ((q, e) ∷ path) h = elim (Bool-cases (q == pc)) [
  | inl t ↦ inl (ground arith)
  | inr f ↦ inr (earlier_delta-In pc path (ground arith))
]

-- One successor.
abbrev pub pushed : ℕ → ℤ → List Point → Item
pushed next after path = record { point = (next, after); path = (next, after) ∷ path }

-- What a clean run of the loop over the successors did.
pub record Pushed (path : List Point) (after : ℤ) (next : List ℕ) (s s' : Search) : Type 0 where
  pub clean : s.issues ≡ []
  pub same_seen : s'.seen ≡ s.seen
  pub same_min : s'.min_delta ≡ s.min_delta
  pub keeps : (q : Point) → In q (points s.work) → In q (points s'.work)
  pub found : (n : ℕ) → In n next → In (n, after) path ⊎ In (n, after) (points s'.work)
  pub origin :
      (item : Item)
      → In item s'.work
      → In item s.work ⊎ ((n : ℕ) × In n next × (item ≡ pushed n after path))

module _ (pc : ℕ) (after : ℤ) (path : List Point) where
  abbrev pub by_earlier : ℕ → Search → Option ℤ → Search
  by_earlier next s o = elim o [
    | some earlier ↦ record s {
      issues =
          issue_if (not (eq_ℤ earlier after)) pc
            "stack-changing control-flow cycle returns with another delta" s.issues;
    }
    | none ↦ record s { work = pushed next after path ∷ s.work }
  ]

  abbrev pub one : ℕ → Search → Search
  one next s = by_earlier next s (earlier_delta next path)

  by_earlier-Pushed :
      (next : ℕ) (s : Search) (o : Option ℤ)
      → earlier_delta next path ≡ o
      → (by_earlier next s o).issues ≡ []
      → Pushed path after (next ∷ []) s (by_earlier next s o)
  by_earlier-Pushed next s none e h = record {
    clean = h;
    same_seen = refl;
    same_min = refl;
    keeps = λ q m. inr m;
    found = λ n m. elim m [
      | inl q ↦ inr (inl (ap (λ (k : ℕ). let p : Point = (k, after) in p) q))
      | inr k ↦ absurd k
    ];
    origin = λ item m. elim m [ inl q ↦ inr (next, inl refl, q) | inr k ↦ inl k ];
  }
  by_earlier-Pushed next s (some earlier) e h =
      let (same, clean) = issue_if-eq-nil (not (eq_ℤ earlier after)) pc _ s.issues h in
      let equal : earlier ≡ after = (eq_ℤ_iff earlier after).0 (not-false _ same) in
      record {
        clean = clean;
        same_seen = refl;
        same_min = refl;
        keeps = λ q m. m;
        found = λ n m. elim m [
          | inl q ↦ inl (rw (q, ← equal) (earlier_delta-In next path e))
          | inr k ↦ absurd k
        ];
        origin = λ item m. inl m;
      }

  Pushed-trans :
      (next : ℕ) (rest : List ℕ) (s t u : Search)
      → Pushed path after (next ∷ []) s t
      → Pushed path after rest t u
      → Pushed path after (next ∷ rest) s u
  Pushed-trans next rest s t u a b = record {
    clean = a.clean;
    same_seen = b.same_seen ∙ a.same_seen;
    same_min = b.same_min ∙ a.same_min;
    keeps = λ q m. b.keeps q (a.keeps q m);
    found = λ n m. elim m [
      | inl q ↦ elim (a.found n (inl q)) [ inl k ↦ inl k | inr k ↦ inr (b.keeps (n, after) k) ]
      | inr k ↦ b.found n k
    ];
    origin = λ item m. elim (b.origin item m) [
      | inl k ↦ first item (a.origin item k)
      | inr (n, k, e) ↦ inr (n, inr k, e)
    ];
  }
    where
      first :
          (item : Item)
          → In item s.work ⊎ ((n : ℕ) × In n (next ∷ []) × (item ≡ pushed n after path))
          → In item s.work ⊎ ((n : ℕ) × In n (next ∷ rest) × (item ≡ pushed n after path))
      first item (inl k) = inl k
      first item (inr (n, inl q, e)) = inr (n, inl q, e)
      first item (inr (n, inr k, e)) = absurd k

  pub push_successors-Pushed :
      (next : List ℕ) (s : Search)
      → (push_successors pc after path next s).issues ≡ []
      → Pushed path after next s (push_successors pc after path next s)
  unfolding push_successors
  push_successors-Pushed [] s h = record {
    clean = h;
    same_seen = refl;
    same_min = refl;
    keeps = λ q m. m;
    found = λ n m. absurd m;
    origin = λ item m. inl m;
  }
  push_successors-Pushed (n ∷ rest) s h =
      let b = push_successors-Pushed rest (one n s) h in
      Pushed-trans n rest s (one n s) _ (by_earlier-Pushed n s (earlier_delta n path) refl b.clean)
        b

-- Leaving a point cleanly: nothing was open, and the successors were pushed.
module _ (pc : ℕ) (after : ℤ) (path : List Point) (flow : Flow) (s : Search) where
  abbrev pub problems : List Issue
  problems = issue_if (has_problem flow.problem) pc (problem_text flow.problem) s.issues

  abbrev pub noted : Bool → Search
  noted exit =
      if exit
      then record s {
        exits = s.exits + 1;
        issues =
            issue_if (not (eq_ℤ after (pos 0))) pc "return with sp delta %d, expected 0" problems;
      }
      else record s { issues = problems }

  no_problem : has_problem flow.problem ≡ false → flow.problem ≡ none
  no_problem h = ground arith

  noted-clean :
      (exit : Bool)
      → (noted exit).issues ≡ []
      → (s.issues ≡ []) × (flow.problem ≡ none) × (exit ≡ true → after ≡ pos 0)
  noted-clean false h =
      let (p, c) = issue_if-eq-nil (has_problem flow.problem) pc _ s.issues h in
      (c, no_problem p, λ e. absurd (cc))
  noted-clean true h =
      let (b, h') = issue_if-eq-nil (not (eq_ℤ after (pos 0))) pc _ problems h in
      let (p, c) = issue_if-eq-nil (has_problem flow.problem) pc _ s.issues h' in
      (c, no_problem p, λ e. (eq_ℤ_iff after (pos 0)).0 (not-false _ b))

  same_start :
      (exit : Bool) (t : Search)
      → s.issues ≡ []
      → Pushed path after flow.next (noted exit) t
      → Pushed path after flow.next s t
  same_start false t c p = record {
    clean = c;
    same_seen = p.same_seen;
    same_min = p.same_min;
    keeps = p.keeps;
    found = p.found;
    origin = p.origin;
  }
  same_start true t c p = record {
    clean = c;
    same_seen = p.same_seen;
    same_min = p.same_min;
    keeps = p.keeps;
    found = p.found;
    origin = p.origin;
  }

  pub leave_point-Pushed :
      (leave_point pc after path flow s).issues ≡ []
      → Pushed path after flow.next s (leave_point pc after path flow s)
        × (flow.problem ≡ none)
        × (flow.exit ≡ true → after ≡ pos 0)
  unfolding leave_point
  leave_point-Pushed h =
      let p = push_successors-Pushed pc after path flow.next (noted flow.exit) h in
      let (c, clear, back) = noted-clean flow.exit p.clean in
      (same_start flow.exit _ c p, clear, back)
