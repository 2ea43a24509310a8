-- ===== src/Audit/Overlaps/Sweep.antt =====
-- The sweep over one sorted section finds every pair of ranges that clash.
use axoloty_embedded.Prelude.{
  ◌≤◌, ◌<◌, ◌≡◌, refl, false, List, [], ◌∷◌, ◌++◌, arith, All, All-append, ◌↔◌,
}
use axoloty_embedded.Audit.Symbols.{Symbol, clash}
use axoloty_embedded.Audit.Overlaps.{Conflict, still_active, conflicts_with, sweep}

-- Symbols that take at least one byte, and symbols behind a given address.
abbrev pub Sized : Symbol → Type 0
Sized s = 0 < s.size

abbrev pub Behind : Symbol → Symbol → Type 0
Behind a x = a.address ≤ x.address

-- No clash with any of `active`.
abbrev Clear : List Symbol → Symbol → Type 0
Clear active x = All (λ a. clash a x ≡ false) active

abbrev pub Disjoint : List Symbol → Type 0
Disjoint [] = Unit {0}
Disjoint (x ∷ xs) = All (λ y. clash x y ≡ false) xs × Disjoint xs

pub append-eq-nil : (xs ys : List Conflict) → xs ++ ys ≡ [] → (xs ≡ []) × (ys ≡ [])
append-eq-nil [] ys h = (refl, h)
append-eq-nil (x ∷ xs) ys h = cc

conflicts_with-Clear :
    (x : Symbol) (active : List Symbol)
    → conflicts_with x (still_active x active) ≡ []
    → Clear active x
unfolding conflicts_with still_active
conflicts_with-Clear x [] h = tt
conflicts_with-Clear x (a ∷ active) h = ground (arith, conflicts_with-Clear x active)

Clear-conflicts_with :
    (x : Symbol) (active : List Symbol)
    → Sized x
    → All (λ a. Behind a x) active
    → Clear active x
    → conflicts_with x (still_active x active) ≡ []
unfolding conflicts_with still_active
Clear-conflicts_with x [] s b c = refl
Clear-conflicts_with x (a ∷ active) s b c = ground (arith, Clear-conflicts_with x active s)

-- What the sweep drops from `active` clashes with nothing that comes later.
still_active-Clear :
    (x : Symbol) (active : List Symbol) (y : Symbol)
    → Behind x y
    → Clear (still_active x active) y
    → Clear active y
unfolding still_active
still_active-Clear x [] y b c = tt
still_active-Clear x (a ∷ active) y b c = ground (arith, still_active-Clear x active y b)

Clear-still_active :
    (x : Symbol) (active : List Symbol) (y : Symbol)
    → Clear active y
    → Clear (still_active x active) y
unfolding still_active
Clear-still_active x [] y c = tt
Clear-still_active x (a ∷ active) y c = ground (arith, Clear-still_active x active y)

Behind-still_active :
    (x : Symbol) (active : List Symbol) (y : Symbol)
    → All (λ a. Behind a y) active
    → All (λ a. Behind a y) (still_active x active)
unfolding still_active
Behind-still_active x [] y c = tt
Behind-still_active x (a ∷ active) y c = ground (arith, Behind-still_active x active y)

-- A list in the order of its addresses.
abbrev pub Ordered : List Symbol → Type 0
Ordered [] = Unit {0}
Ordered (x ∷ xs) = All (λ y. Behind x y) xs × Ordered xs

Clear-snoc :
    (active : List Symbol) (x y : Symbol)
    → Clear (active ++ x ∷ []) y
    → Clear active y × (clash x y ≡ false)
Clear-snoc [] x y c = (tt, c.0)
Clear-snoc (a ∷ active) x y c = let (d, e) = Clear-snoc active x y c.1 in ((c.0, d), e)

snoc-Clear :
    (active : List Symbol) (x y : Symbol)
    → Clear active y
    → clash x y ≡ false
    → Clear (active ++ x ∷ []) y
snoc-Clear [] x y c e = (e, tt)
snoc-Clear (a ∷ active) x y c e = (c.0, snoc-Clear active x y c.1 e)

split-Clear :
    (x : Symbol) (active xs : List Symbol)
    → All (λ y. Behind x y) xs
    → All (Clear (still_active x active ++ x ∷ [])) xs
    → All (Clear active) xs × All (λ y. clash x y ≡ false) xs
split-Clear x active [] b c = (tt, tt)
split-Clear x active (y ∷ xs) b c =
    let (d, e) = Clear-snoc (still_active x active) x y c.0 in
    let (f, g) = split-Clear x active xs b.1 c.1 in
    ((still_active-Clear x active y b.0 d, f), (e, g))

join-Clear :
    (x : Symbol) (active xs : List Symbol)
    → All (Clear active) xs
    → All (λ y. clash x y ≡ false) xs
    → All (Clear (still_active x active ++ x ∷ [])) xs
join-Clear x active [] c d = tt
join-Clear x active (y ∷ xs) c d = (
  snoc-Clear (still_active x active) x y (Clear-still_active x active y c.0) d.0,
  join-Clear x active xs c.1 d.1,
)

sweep-Clear :
    (active xs : List Symbol)
    → Ordered xs
    → sweep active xs ≡ []
    → All (Clear active) xs × Disjoint xs
unfolding sweep
sweep-Clear active [] o h = (tt, tt)
sweep-Clear active (x ∷ xs) o h =
    let (c, r) = append-eq-nil (conflicts_with x (still_active x active)) _ h in
    let (d, e) = sweep-Clear (still_active x active ++ x ∷ []) xs o.1 r in
    let (f, g) = split-Clear x active xs o.0 d in ((conflicts_with-Clear x active c, f), (g, e))

Behind-snoc :
    (active : List Symbol) (x y : Symbol)
    → All (λ a. Behind a y) active
    → Behind x y
    → All (λ a. Behind a y) (active ++ x ∷ [])
Behind-snoc active x y b c = All-append (λ a. Behind a y) active (x ∷ []) b (c, tt)

later-Behind :
    (x : Symbol) (active xs : List Symbol)
    → All (λ y. Behind x y) xs
    → All (λ y. All (λ a. Behind a y) active) xs
    → All (λ y. All (λ a. Behind a y) (still_active x active ++ x ∷ [])) xs
later-Behind x active [] b c = tt
later-Behind x active (y ∷ xs) b c = (
  Behind-snoc (still_active x active) x y (Behind-still_active x active y c.0) b.0,
  later-Behind x active xs b.1 c.1,
)

Clear-sweep :
    (active xs : List Symbol)
    → Ordered xs
    → All Sized xs
    → All (λ y. All (λ a. Behind a y) active) xs
    → All (Clear active) xs
    → Disjoint xs
    → sweep active xs ≡ []
unfolding sweep
Clear-sweep active [] o s b c d = refl
Clear-sweep active (x ∷ xs) o s b c d = rw (Clear-conflicts_with x active s.0 b.0 c.0) (
    Clear-sweep (still_active x active ++ x ∷ []) xs o.1 s.1 (later-Behind x active xs o.0 b.1)
      (join-Clear x active xs c.1 d.0) d.1)

-- From an empty start: the sweep of an ordered section reports nothing exactly when it is disjoint.
none-Behind : (xs : List Symbol) → All (λ y. All (λ a. Behind a y) []) xs
none-Behind [] = tt
none-Behind (x ∷ xs) = (tt, none-Behind xs)

none-Clear : (xs : List Symbol) → All (Clear []) xs
none-Clear [] = tt
none-Clear (x ∷ xs) = (tt, none-Clear xs)

pub sweep-Disjoint-Ordered :
    (xs : List Symbol) → Ordered xs → All Sized xs → (sweep [] xs ≡ []) ↔ Disjoint xs
sweep-Disjoint-Ordered xs o s =
    (λ h. (sweep-Clear [] xs o h).1, λ d. Clear-sweep [] xs o s (none-Behind xs) (none-Clear xs) d)
