-- ===== src/Audit/Overlaps/Order.antt =====
-- The order by which a section is sorted: address, end, name.
use axoloty_embedded.Prelude.{ℕ, ◌≡◌, refl, true, false, List, [], ◌∷◌, arith, All, IsSorted}
use axoloty_embedded.Prelude.Text.{codes}
use axoloty_embedded.Audit.Symbols.{Symbol}
use axoloty_embedded.Audit.Overlaps.{codes_le, symbol_le}
use axoloty_embedded.Audit.Overlaps.Sweep.{Ordered, Behind}

codes_le_total : (xs ys : List ℕ) → codes_le xs ys ≡ false → codes_le ys xs ≡ true
unfolding codes_le
codes_le_total [] ys h = cc
codes_le_total (x ∷ xs) [] h = refl
codes_le_total (x ∷ xs) (y ∷ ys) h = ground (arith, codes_le_total xs ys)

codes_le_trans :
    (xs ys zs : List ℕ) → codes_le xs ys ≡ true → codes_le ys zs ≡ true → codes_le xs zs ≡ true
unfolding codes_le
codes_le_trans [] ys zs h k = refl
codes_le_trans (x ∷ xs) [] zs h k = cc
codes_le_trans (x ∷ xs) (y ∷ ys) [] h k = cc
codes_le_trans (x ∷ xs) (y ∷ ys) (z ∷ zs) h k = ground (arith, codes_le_trans xs ys zs)

pub symbol_le_total : (s t : Symbol) → symbol_le s t ≡ false → symbol_le t s ≡ true
unfolding symbol_le
symbol_le_total s t h = ground (arith, codes_le_total (codes s.name) (codes t.name))

pub symbol_le_trans :
    (s t u : Symbol) → symbol_le s t ≡ true → symbol_le t u ≡ true → symbol_le s u ≡ true
unfolding symbol_le
symbol_le_trans s t u h k =
    ground (arith, codes_le_trans (codes s.name) (codes t.name) (codes u.name))

le-Behind :
    (s : Symbol) (xs : List Symbol) → All (λ t. symbol_le s t ≡ true) xs → All (λ t. Behind s t) xs
unfolding symbol_le
le-Behind s [] h = tt
le-Behind s (t ∷ xs) h = ground (arith, le-Behind s xs)

pub IsSorted-Ordered : (xs : List Symbol) → IsSorted symbol_le xs → Ordered xs
IsSorted-Ordered [] h = tt
IsSorted-Ordered (x ∷ xs) h = (le-Behind x xs h.0, IsSorted-Ordered xs h.1)
