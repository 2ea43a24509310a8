-- ===== src/Audit/Overlaps/Groups.antt =====
-- The sections together: no conflict is reported exactly when no two symbols clash.
use axoloty_embedded.Prelude.{
  ◌≡◌, refl, false, List, [], ◌∷◌, arith, In, All-In, All-intro, inl, inr, All, ℕ, if◌then◌else◌,
  Bool, ◌==◌, ◌↔◌, sort_by-IsSorted, ◌++◌, All-sort_by, In-sort_by, sort_by-In, Bool-cases, ◌⊎◌,
  ==_refl, All-append, In-append_left, In-append_right, sym, ==_iff,
}
use axoloty_embedded.Audit.Symbols.{Symbol, clash}
use axoloty_embedded.Audit.Overlaps.Sweep.{Disjoint, Sized, sweep-Disjoint-Ordered}
use axoloty_embedded.Audit.Overlaps.{append_to_group, sweep, sort_by, symbol_le, true, by_section}
use axoloty_embedded.Audit.Overlaps.Order.{IsSorted-Ordered, symbol_le_total, symbol_le_trans}

-- No two symbols of the list clash.
abbrev pub Peaceful : List Symbol → Type 0
Peaceful xs = (s t : Symbol) → In s xs → In t xs → clash s t ≡ false

clash_sym : (s t : Symbol) → clash s t ≡ clash t s
clash_sym s t = ground arith

clash_self : (s : Symbol) → clash s s ≡ false
clash_self s = ground arith

Disjoint-Peaceful : (xs : List Symbol) → Disjoint xs → Peaceful xs
Disjoint-Peaceful [] d s t m k = absurd m
Disjoint-Peaceful (x ∷ xs) d s t (inl e) (inl f) = rw (e, f) (clash_self x)
Disjoint-Peaceful (x ∷ xs) d s t (inl e) (inr k) = rw e (All-In (λ y. clash x y ≡ false) t xs d.0 k)
Disjoint-Peaceful (x ∷ xs) d s t (inr m) (inl f) =
    rw (f, clash_sym s x) (All-In (λ y. clash x y ≡ false) s xs d.0 m)
Disjoint-Peaceful (x ∷ xs) d s t (inr m) (inr k) = Disjoint-Peaceful xs d.1 s t m k

Peaceful-Disjoint : (xs : List Symbol) → Peaceful xs → Disjoint xs
Peaceful-Disjoint [] p = tt
Peaceful-Disjoint (x ∷ xs) p = (
  All-intro (λ y. clash x y ≡ false) xs (λ y m. p x y (inl refl) (inr m)),
  Peaceful-Disjoint xs (λ s t m k. p s t (inr m) (inr k)),
)

-- One section.
pub section_clear :
    (group : List Symbol)
    → All Sized group
    → (sweep [] (sort_by symbol_le group) ≡ []) ↔ Peaceful group
section_clear group sized = (forward, backward)
  where
    sorted : List Symbol
    sorted = sort_by symbol_le group

    decided : (sweep [] sorted ≡ []) ↔ Disjoint sorted
    decided =
        sweep-Disjoint-Ordered sorted
          (IsSorted-Ordered sorted
            (sort_by-IsSorted symbol_le symbol_le_total symbol_le_trans group))
          (All-sort_by symbol_le Sized group sized)

    forward : sweep [] sorted ≡ [] → Peaceful group
    forward h s t m k =
        Disjoint-Peaceful sorted (decided.0 h) s t (In-sort_by symbol_le s group m)
          (In-sort_by symbol_le t group k)

    backward : Peaceful group → sweep [] sorted ≡ []
    backward p = decided.1 (
        Peaceful-Disjoint sorted
          (λ s t m k. p s t (sort_by-In symbol_le s group m) (sort_by-In symbol_le t group k)))

-- The symbols of one section, as `by_section` collects them.
abbrev pub group_at : ℕ → List (ℕ × List Symbol) → List Symbol
group_at k [] = []
group_at k ((index, group) ∷ groups) = if index == k then group else group_at k groups

abbrev in_section : ℕ → Symbol → Bool
in_section k s = s.section_index == k

group_at-append_to_group :
    (k : ℕ) (s : Symbol) (groups : List (ℕ × List Symbol))
    → group_at k (append_to_group s groups)
      ≡ (if in_section k s then group_at k groups ++ s ∷ [] else group_at k groups)
unfolding append_to_group
group_at-append_to_group k s [] = ground arith
group_at-append_to_group k s ((index, group) ∷ groups) =
    ground (arith, group_at-append_to_group k s groups)

keeps_member :
    (k : ℕ) (s x : Symbol) (groups : List (ℕ × List Symbol))
    → In s (group_at k groups)
    → In s (group_at k (append_to_group x groups))
keeps_member k s x groups m =
    rw (group_at-append_to_group k x groups) (place (Bool-cases (in_section k x)))
  where
    place :
        (in_section k x ≡ true) ⊎ (in_section k x ≡ false)
        → In s (if in_section k x then group_at k groups ++ x ∷ [] else group_at k groups)
    place (inl e) = rw e (In-append_left s (group_at k groups) (x ∷ []) m)
    place (inr e) = rw e m

gains_member :
    (s x : Symbol) (groups : List (ℕ × List Symbol))
    → s ≡ x
    → In s (group_at s.section_index (append_to_group x groups))
gains_member s x groups e =
    rw (group_at-append_to_group s.section_index x groups, here)
      (In-append_right s (group_at s.section_index groups) (x ∷ []) (inl e))
  where
    here : in_section s.section_index x ≡ true
    here = rw e (==_refl x.section_index)

-- Each symbol stands in the group of its section.
pub by_section-covers :
    (s : Symbol) (groups : List (ℕ × List Symbol)) (rest : List Symbol)
    → In s rest ⊎ In s (group_at s.section_index groups)
    → In s (group_at s.section_index (by_section groups rest))
unfolding by_section
by_section-covers s groups [] (inl m) = absurd m
by_section-covers s groups [] (inr m) = m
by_section-covers s groups (x ∷ rest) (inl (inl e)) =
    by_section-covers s (append_to_group x groups) rest (inr (gains_member s x groups e))
by_section-covers s groups (x ∷ rest) (inl (inr m)) =
    by_section-covers s (append_to_group x groups) rest (inl m)
by_section-covers s groups (x ∷ rest) (inr m) =
    by_section-covers s (append_to_group x groups) rest
      (inr (keeps_member s.section_index s x groups m))

-- A group holds symbols of its section only, and only symbols with a given property.
abbrev pub IsPure : (Symbol → Type 0) → ℕ × List Symbol → Type 0
IsPure P (index, group) = All (λ s. P s × (s.section_index ≡ index)) group

append_to_group-IsPure :
    (P : Symbol → Type 0) (x : Symbol) (groups : List (ℕ × List Symbol))
    → P x
    → All (IsPure P) groups
    → All (IsPure P) (append_to_group x groups)
unfolding append_to_group
append_to_group-IsPure P x [] h a = (((h, refl), tt), tt)
append_to_group-IsPure P x ((index, group) ∷ groups) h a =
    elim (Bool-cases (index == x.section_index)) [
      | inl e ↦ rw e (
        All-append (λ s. P s × (s.section_index ≡ index)) group (x ∷ []) a.0
            ((h, sym ((==_iff index x.section_index).0 e)), tt),
        a.1,
      )
      | inr e ↦ rw e (a.0, append_to_group-IsPure P x groups h a.1)
    ]

pub by_section-IsPure :
    (P : Symbol → Type 0) (groups : List (ℕ × List Symbol)) (rest : List Symbol)
    → All P rest
    → All (IsPure P) groups
    → All (IsPure P) (by_section groups rest)
unfolding by_section
by_section-IsPure P groups [] h a = a
by_section-IsPure P groups (x ∷ rest) h a =
    by_section-IsPure P (append_to_group x groups) rest h.1
      (append_to_group-IsPure P x groups h.0 a)
