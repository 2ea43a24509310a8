-- ===== src/Interval/Samples.antt =====
-- The join of two states that differ in one register.
use axoloty_embedded.Prelude.{◌≡◌, refl, [], ◌∷◌, none, some, inr}
use axoloty_embedded.Prelude.Int.{ℤ, pos}
use axoloty_embedded.Outcome.{ok}
use axoloty_embedded.Interval.{
  State, merge, const, same_values, join_registers, join_memory, union, bounded, join_sets,
  add_value,
}
use axoloty_embedded.Interval.Sound.{Describes, merge-Describes}

abbrev state : ℤ → State
state n = record {
  regs = const (pos 0) ∷ none ∷ const (pos 64) ∷ const n ∷ [];
  memory = [];
  phase = 0;
}

abbrev merged : State
merged = record {
  regs = const (pos 0) ∷ none ∷ const (pos 64) ∷ some (pos 1 ∷ pos 2 ∷ []) ∷ [];
  memory = [];
  phase = 0;
}

merge_run : merge (state (pos 1)) (state (pos 2)) ≡ ok merged
unfolding merge same_values join_registers join_memory union bounded join_sets add_value
merge_run = refl

merge-Describes_example : Describes merged.regs (pos 0 ∷ pos 7 ∷ pos 64 ∷ pos 2 ∷ [])
merge-Describes_example =
    merge-Describes (state (pos 1)) (state (pos 2)) merged (pos 0 ∷ pos 7 ∷ pos 64 ∷ pos 2 ∷ [])
      merge_run refl (inr (refl, (tt, (refl, (refl, tt)))))
