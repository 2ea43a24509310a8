-- ===== src/Stack/Frame/Paths.antt =====
-- Paths of the search: their addresses differ and belong to the function, so a path is never longer
-- than the function, and the search cannot go on for ever.
use axoloty_embedded.Prelude.{
  ℕ, ◌≤◌, ◌<◌, ◌≡◌, true, false, not, none, List, [], ◌∷◌, ◌==◌, length, arith, select,
}
use axoloty_embedded.Stack.Flow.{member}
use axoloty_embedded.Stack.Frame.{Point, earlier_delta}

-- The addresses of a path differ, and each belongs to `starts`.
abbrev pub IsFine : List ℕ → List Point → Type 0
IsFine starts [] = Unit {0}
IsFine starts ((pc, d) ∷ path) =
    (earlier_delta pc path ≡ none) × (member pc starts ≡ true) × IsFine starts path

without : ℕ → List ℕ → List ℕ
without pc starts = select (λ n. not (n == pc)) starts

length-without : (pc : ℕ) (starts : List ℕ) → length (without pc starts) ≤ length starts
unfolding without
length-without pc [] = omega arith
length-without pc (n ∷ starts) = ground (arith, length-without pc starts)

length-without-member :
    (pc : ℕ) (starts : List ℕ)
    → member pc starts ≡ true
    → length (without pc starts) < length starts
unfolding without
length-without-member pc [] h = absurd (cc)
length-without-member pc (n ∷ starts) h =
    ground (arith, length-without-member pc starts, length-without pc starts)

member-without :
    (pc n : ℕ) (starts : List ℕ)
    → member n starts ≡ true
    → (n == pc) ≡ false
    → member n (without pc starts) ≡ true
unfolding without
member-without pc n [] h e = h
member-without pc n (m ∷ starts) h e = ground (arith, member-without pc n starts)

IsFine-without :
    (pc : ℕ) (starts : List ℕ) (path : List Point)
    → earlier_delta pc path ≡ none
    → IsFine starts path
    → IsFine (without pc starts) path
IsFine-without pc starts [] h f = tt
IsFine-without pc starts ((n, d) ∷ path) h f =
    ground (arith, IsFine-without pc starts path, member-without pc n starts)

-- A fine path is no longer than the function.
pub length-IsFine :
    (starts : List ℕ) (path : List Point) → IsFine starts path → length path ≤ length starts
length-IsFine starts [] f = omega arith
length-IsFine starts ((pc, d) ∷ path) f = omega (
  arith,
  length-IsFine (without pc starts) path (IsFine-without pc starts path f.0 f.2),
  length-without-member pc starts f.1,
)
