-- ===== src/Interval/Branch/Sound.antt =====
-- The registers that a branch leaves on an edge still describe every machine that takes the edge.
use axoloty_embedded.Prelude.{
  ℕ, ◌≡◌, refl, Bool, true, false, not, String, Option, none, some, List, [], ◌∷◌, In, inl, inr,
  Bool-cases, arith, ◌≤◌, ◌<◌, ◌^◌, ltb, leb, ◌==◌, In-select_intro, any-true_at, any,
  if◌then◌else◌, set, zero, str_eq, ◌%◌, str_eq_iff,
}
use mathlib.Core.Path.{subst}
use axoloty_embedded.Prelude.Int.{ℤ, pos, negsuc, eq_ℤ, ltb_ℤ}
use axoloty_embedded.Outcome.{ok, ok-eq}
use axoloty_embedded.Stack.Instruction.{Instruction}
use axoloty_embedded.Interval.{Values}
use axoloty_embedded.Interval.Sound.{May, Describes}
use axoloty_embedded.Interval.Registers.{
  held, holds-In, In-holds, Describes-known, Describes-set_known,
}
use axoloty_embedded.Interval.Branch.{
  Comparison, equal, unsigned_less, signed_less, compares, agree, narrow_zero, narrowed, lefts,
  rights, narrow_pairs, narrow_compare, narrow_limit, up_to, signed_word, suc, comparison_of,
  refine_pair, refine_zero, text_in, register_operand, operands, taken,
}

-- The edge is kept, and its registers describe the values.
abbrev pub Keeps : Option (List Values) → List ℤ → Type 0
Keeps none vs = ⊥
Keeps (some regs) vs = Describes regs vs

narrowed-Keeps :
    (r : ℕ) (kept : List ℤ) (regs : List Values) (vs : List ℤ)
    → Describes regs vs
    → In (held vs r) kept
    → Keeps (narrowed r kept regs) vs
narrowed-Keeps r [] regs vs d m = m
narrowed-Keeps r (k ∷ ks) regs vs d m =
    Describes-set_known regs vs r (some (k ∷ ks)) d (In-holds (held vs r) (k ∷ ks) m)

Keeps-if :
    (test : Bool) (a b : Option (List Values)) (vs : List ℤ)
    → Keeps a vs
    → Keeps b vs
    → Keeps (if test then a else b) vs
Keeps-if true a b vs h k = h
Keeps-if false a b vs h k = k

narrow_zero-Keeps :
    (r : ℕ) (wanted : Bool) (a : Values) (regs : List Values) (vs : List ℤ)
    → Describes regs vs
    → May (held vs r) a
    → agree (eq_ℤ (held vs r) (pos 0)) wanted ≡ true
    → Keeps (narrow_zero r wanted a regs) vs
narrow_zero-Keeps r wanted none regs vs d m t = d
narrow_zero-Keeps r wanted (some xs) regs vs d m t =
    let kept = narrowed-Keeps r _ regs vs d (
      In-select_intro (λ x. agree (eq_ℤ x (pos 0)) wanted) xs (held vs r)
        (holds-In (held vs r) xs m) t) in
    Keeps-if _ _ (some regs) vs kept d

-- The two values of a pair that passes the test are kept.
narrow_pairs-Keeps :
    (a b : ℕ) (test : ℤ → ℤ → Bool) (xs ys : List ℤ) (regs : List Values) (vs : List ℤ)
    → Describes regs vs
    → In (held vs a) xs
    → In (held vs b) ys
    → test (held vs a) (held vs b) ≡ true
    → Keeps (narrow_pairs a b test xs ys regs) vs
narrow_pairs-Keeps a b test xs ys regs vs d m n t =
    kept (lefts test xs ys)
      (In-select_intro (λ x. any (test x) ys) xs (held vs a) m
        (any-true_at (test (held vs a)) ys (held vs b) n t))
      (In-select_intro (λ y. any (λ x. test x y) xs) ys (held vs b) n
        (any-true_at (λ x. test x (held vs b)) xs (held vs a) m t))
  where
    kept :
        (ls : List ℤ)
        → In (held vs a) ls
        → In (held vs b) (rights test xs ys)
        → Keeps
            (elim ls [
              | [] ↦ none
              | x ∷ rest ↦ some (set (set regs a (some (x ∷ rest))) b (some (rights test xs ys)))
            ])
            vs
    kept [] l r = l
    kept (x ∷ rest) l r =
        Describes-set_known (set regs a (some (x ∷ rest))) vs b (some (rights test xs ys))
          (Describes-set_known regs vs a (some (x ∷ rest)) d (In-holds (held vs a) (x ∷ rest) l))
          (In-holds (held vs b) (rights test xs ys) r)

In-up_to : (n limit : ℕ) → n ≤ limit → In (pos n) (up_to limit)
unfolding up_to
In-up_to n zero h = let e : n ≡ 0 = omega arith in inl (rw e)
In-up_to n (suc limit) h = elim (Bool-cases (n == suc limit)) [
  | inl e ↦ let q : n ≡ suc limit = ground arith in inl (rw q)
  | inr e ↦ inr (In-up_to n limit (ground arith))
]

-- The tests of the machine on two words.
abbrev pub compares_words : Comparison → ℕ → ℕ → Bool
compares_words equal x y = x == y
compares_words unsigned_less x y = ltb x y
compares_words signed_less x y = ltb_ℤ (signed_word x) (signed_word y)

compares-eq :
    (kind : Comparison) (x y : ℕ)
    → x < 2 ^ 32
    → y < 2 ^ 32
    → compares kind (pos x) (pos y) ≡ compares_words kind x y
compares-eq kind x y h k =
    let e : x % 2 ^ 32 ≡ x = omega arith in let f : y % 2 ^ 32 ≡ y = omega arith in same kind e f
  where
    same :
        (kind : Comparison)
        → x % 2 ^ 32 ≡ x
        → y % 2 ^ 32 ≡ y
        → compares kind (pos x) (pos y) ≡ compares_words kind x y
    same equal e f = rw (e, f) refl
    same unsigned_less e f = rw (e, f) refl
    same signed_less e f = rw (e, f) refl

narrow_limit-Describes :
    (a b x y : ℕ) (xs : List ℤ) (regs : List Values) (vs : List ℤ)
    → Describes regs vs
    → In (held vs a) xs
    → held vs a ≡ pos x
    → held vs b ≡ pos y
    → y ≤ x
    → Describes (narrow_limit b xs regs) vs
narrow_limit-Describes a b x y [] regs vs d m e f h = d
narrow_limit-Describes a b x y (negsuc n ∷ []) regs vs d m e f h = d
narrow_limit-Describes a b x y (negsuc n ∷ z ∷ zs) regs vs d m e f h = d
narrow_limit-Describes a b x y (pos n ∷ z ∷ zs) regs vs d m e f h = d
narrow_limit-Describes a b x y (pos n ∷ []) regs vs d (inr m) e f h = absurd m
narrow_limit-Describes a b x y (pos n ∷ []) regs vs d (inl m) e f h = elim (Bool-cases (leb n 31)) [
  | inl t ↦ rw t (
      Describes-set_known regs vs b (some (up_to n)) d
        (rw f (In-holds (pos y) (up_to n) (In-up_to y n within))))
  | inr t ↦ rw t d
]
  where
    within : y ≤ n
    within = ground arith

-- The test has the outcome that the edge asks for.
narrow_compare-Keeps :
    (kind : Comparison) (a b : ℕ) (wanted : Bool) (va vb : Values) (regs : List Values)
    (vs : List ℤ) (x y : ℕ)
    → Describes regs vs
    → May (held vs a) va
    → May (held vs b) vb
    → held vs a ≡ pos x
    → held vs b ≡ pos y
    → x < 2 ^ 32
    → y < 2 ^ 32
    → agree (compares_words kind x y) wanted ≡ true
    → Keeps (narrow_compare kind a b wanted va vb regs) vs
narrow_compare-Keeps kind a b wanted (some xs) (some ys) regs vs x y d m n e f h k t =
    Keeps-if _ _ (some regs) vs
      (narrow_pairs-Keeps a b (λ x y. agree (compares kind x y) wanted) xs ys regs vs d
        (holds-In (held vs a) xs m) (holds-In (held vs b) ys n)
        (rw (e, f, compares-eq kind x y h k) t))
      d
narrow_compare-Keeps unsigned_less a b false (some xs) none regs vs x y d m n e f h k t =
    narrow_limit-Describes a b x y xs regs vs d (holds-In (held vs a) xs m) e f (ground arith)
narrow_compare-Keeps _ a b wanted _ _ regs vs x y d m n e f h k t = d

-- What the machine tests before it jumps; `bge` for any other name.
abbrev pub condition : String → ℕ → ℕ → Bool
condition m x y =
    if str_eq m "beq"
    then x == y
    else if str_eq m "bne"
    then not (x == y)
    else if str_eq m "blt"
    then ltb_ℤ (signed_word x) (signed_word y)
    else if str_eq m "bltu"
    then ltb x y
    else if str_eq m "bgeu"
    then not (ltb x y)
    else not (ltb_ℤ (signed_word x) (signed_word y))

abbrev less_names : List String
less_names = "beq" ∷ "blt" ∷ "bltu" ∷ []

abbrev Agrees : String → ℕ → ℕ → Type 0
Agrees m x y =
    agree (compares_words (comparison_of m) x y) (agree (condition m x y) (text_in m less_names))
    ≡ true

agree_self : (b : Bool) → agree b (agree b true) ≡ true
agree_self b = ground arith

agree-not : (b : Bool) → agree b (agree (not b) false) ≡ true
agree-not b = ground arith

Agrees-at : (m name : String) (x y : ℕ) → Agrees name x y → str_eq m name ≡ true → Agrees m x y
Agrees-at m name x y h e = let q : m ≡ name = (str_eq_iff m name).0 e in rw q h

-- The test that the program asks for agrees with the machine's.
condition-Agrees : (m : String) (x y : ℕ) → Agrees m x y
condition-Agrees m x y = elim (Bool-cases (str_eq m "beq")) [
  | inl e ↦ Agrees-at m "beq" x y (agree_self _) e
  | inr e₁ ↦ elim (Bool-cases (str_eq m "bne")) [
    | inl e ↦ Agrees-at m "bne" x y (agree-not _) e
    | inr e₂ ↦ elim (Bool-cases (str_eq m "blt")) [
      | inl e ↦ Agrees-at m "blt" x y (agree_self _) e
      | inr e₃ ↦ elim (Bool-cases (str_eq m "bltu")) [
        | inl e ↦ Agrees-at m "bltu" x y (agree_self _) e
        | inr e₄ ↦ elim (Bool-cases (str_eq m "bgeu")) [
          | inl e ↦ Agrees-at m "bgeu" x y (agree-not _) e
          | inr e₅ ↦ rw (e₁, e₂, e₃, e₄, e₅) (agree-not _)
        ]
      ]
    ]
  ]
]

-- If `refine_pair` returns for the edge of a branch to a target, the registers describe the values
-- of a machine that holds words x and y in the compared registers, and the machine's test of x and
-- y comes out true exactly when the target is the branch's own, then the edge is kept and its
-- registers describe the values too.
pub refine_pair-Keeps :
    (ins : Instruction) (target : ℕ) (regs : List Values) (kept : Option (List Values))
    (vs : List ℤ) (a b x y : ℕ)
    → refine_pair ins target regs ≡ ok kept
    → register_operand (operands ins) 0 ≡ ok a
    → register_operand (operands ins) 1 ≡ ok b
    → Describes regs vs
    → held vs a ≡ pos x
    → held vs b ≡ pos y
    → x < 2 ^ 32
    → y < 2 ^ 32
    → condition ins.mnemonic x y ≡ taken ins.target target
    → Keeps kept vs
unfolding refine_pair
refine_pair-Keeps ins target regs kept vs a b x y r ra rb d e f h k c =
    let r' = rw (ra, rb) at r in
    subst (λ (o : Option (List Values)). Keeps o vs) (ok-eq r')
      (narrow_compare-Keeps (comparison_of ins.mnemonic) a b _ _ _ regs vs x y d
        (Describes-known regs vs a d) (Describes-known regs vs b d) e f h k
        (rw (← c) (condition-Agrees ins.mnemonic x y)))

agree_zero : (x : ℕ) (b : Bool) → agree (eq_ℤ (pos x) (pos 0)) (agree (agree (x == 0) b) b) ≡ true
agree_zero x b = ground arith

-- If `refine_zero` returns for the edge of a branch to a target, the registers describe the values
-- of a machine that holds a word x in the tested register, and the machine's test (x is zero for
-- c.beqz, not zero for the other) comes out true exactly when the target is the branch's own, then
-- the edge is kept and its registers describe the values too.
pub refine_zero-Keeps :
    (ins : Instruction) (target : ℕ) (regs : List Values) (kept : Option (List Values))
    (vs : List ℤ) (r x : ℕ)
    → refine_zero ins target regs ≡ ok kept
    → register_operand (operands ins) 0 ≡ ok r
    → Describes regs vs
    → held vs r ≡ pos x
    → agree (x == 0) (text_in ins.mnemonic ("c.beqz" ∷ [])) ≡ taken ins.target target
    → Keeps kept vs
unfolding refine_zero
refine_zero-Keeps ins target regs kept vs r x h hr d e c =
    let h' = rw hr at h in
    subst (λ (o : Option (List Values)). Keeps o vs) (ok-eq h')
      (narrow_zero-Keeps r _ _ regs vs d (Describes-known regs vs r d)
        (rw (e, ← c) (agree_zero x _)))
