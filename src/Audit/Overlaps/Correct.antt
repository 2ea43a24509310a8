-- ===== src/Audit/Overlaps/Correct.antt =====
-- `conflicting_overlaps` decides whether two symbols of one section overlap without being aliases.
use axoloty_embedded.Prelude.{
  ℕ, ◌≡◌, refl, false, List, [], ◌∷◌, ◌↔◌, inl, inr, All, In, All-In, All-intro, Bool-cases, ◌∙◌,
  ◌==◌, sym,
}
use axoloty_embedded.Audit.Overlaps.{
  conflicting_overlaps, sweep_groups, by_section, sweep, sort_by, symbol_le,
}
use axoloty_embedded.Audit.Symbols.{Symbol, clash}
use axoloty_embedded.Audit.Overlaps.Groups.{
  Peaceful, IsPure, group_at, section_clear, by_section-IsPure, by_section-covers,
}
use axoloty_embedded.Audit.Overlaps.Sweep.{Sized, append-eq-nil}

-- Any two symbols of one section have equal ranges or share no address.
abbrev pub Apart : List Symbol → Type 0
Apart symbols =
    (s t : Symbol)
    → In s symbols
    → In t symbols
    → s.section_index ≡ t.section_index
    → clash s t ≡ false

-- One section of the grouping, and all of them.
abbrev IsQuiet : ℕ × List Symbol → Type 0
IsQuiet (index, group) = Peaceful group

All-Sized :
    (index : ℕ) (xs : List Symbol)
    → All (λ s. Sized s × (s.section_index ≡ index)) xs
    → All Sized xs
All-Sized index [] h = tt
All-Sized index (x ∷ xs) h = (h.0.0, All-Sized index xs h.1)

IsQuiet-groups :
    (groups : List (ℕ × List Symbol))
    → All (IsPure Sized) groups
    → (sweep_groups groups ≡ []) ↔ All IsQuiet groups
unfolding sweep_groups
IsQuiet-groups [] p = (λ _. tt, λ _. refl)
IsQuiet-groups ((index, group) ∷ groups) p =
    let (only, back) = IsQuiet-groups groups p.1 in
    let (quiet, clear) = section_clear group (All-Sized index group p.0) in
    (
      λ h.
          let (a, b) = append-eq-nil (sweep [] (sort_by symbol_le group)) (sweep_groups groups) h in
          (quiet a, only b),
      λ q. rw (clear q.0) (back q.1),
    )

group_at-IsQuiet :
    (k : ℕ) (groups : List (ℕ × List Symbol)) → All IsQuiet groups → Peaceful (group_at k groups)
group_at-IsQuiet k [] q = λ s t m. absurd m
group_at-IsQuiet k ((index, group) ∷ groups) q = elim (Bool-cases (index == k)) [
  | inl e ↦ rw e q.0
  | inr e ↦ rw e (group_at-IsQuiet k groups q.1)
]

module _ (symbols : List Symbol) (apart : Apart symbols) where
  pure-IsQuiet :
      (groups : List (ℕ × List Symbol))
      → All (IsPure (λ s. In s symbols)) groups
      → All IsQuiet groups
  pure-IsQuiet [] p = tt
  pure-IsQuiet ((index, group) ∷ groups) p = (quiet, pure-IsQuiet groups p.1)
    where
      quiet : Peaceful group
      quiet s t m k =
          let (a, b) = All-In (λ s. In s symbols × (s.section_index ≡ index)) s group p.0 m in
          let (c, d) = All-In (λ s. In s symbols × (s.section_index ≡ index)) t group p.0 k in
          apart s t a c (b ∙ sym d)

-- Among symbols of positive size no conflict is reported exactly when any two symbols of one
-- section have equal ranges or share no address.
pub conflicting_overlaps-none :
    (symbols : List Symbol)
    → All Sized symbols
    → (conflicting_overlaps symbols ≡ []) ↔ Apart symbols
unfolding conflicting_overlaps
conflicting_overlaps-none symbols sized = (forward, backward)
  where
    groups : List (ℕ × List Symbol)
    groups = by_section [] symbols

    decided : (sweep_groups groups ≡ []) ↔ All IsQuiet groups
    decided = IsQuiet-groups groups (by_section-IsPure Sized [] symbols sized tt)

    forward :
        sweep_groups groups ≡ []
        → (s t : Symbol) → In s symbols
        → In t symbols
        → s.section_index ≡ t.section_index
        → clash s t ≡ false
    forward h s t m k e =
        group_at-IsQuiet s.section_index groups (decided.0 h) s t
          (by_section-covers s [] symbols (inl m)) (rw e (by_section-covers t [] symbols (inl k)))

    backward : Apart symbols → sweep_groups groups ≡ []
    backward f = decided.1 (
        pure-IsQuiet symbols f groups (
          by_section-IsPure (λ s. In s symbols) [] symbols
            (All-intro (λ s. In s symbols) symbols (λ s m. m)) tt))
