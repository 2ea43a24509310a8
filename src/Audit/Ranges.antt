-- ===== src/Audit/Ranges.antt =====
-- `merged_bytes` of Tools/EmbeddedApplicationMacros/linked_storage_audit.py: the number of bytes
-- that a list of half-open address ranges covers, each byte counted once.
use axoloty_embedded.Prelude.Int.{ℤ, pos, ◌+ℤ◌, sub_ℕ, int_laws}
use axoloty_embedded.Prelude.{
  ℕ, ◌+◌, ◌-◌, ◌≤◌, ◌<◌, ◌≡◌, refl, sym, ◌∙◌, ap, Bool, true, false, ◌&&◌, ◌||◌, Option, none, some,
  List, [], ◌∷◌, arith, ltb, leb, ◌==◌, if◌then◌else◌, All, any, sort_by, any-sort_by, All-sort_by,
  IsSorted, sort_by-IsSorted, count_below, count_below_ext, count_below_none, count_below_disjoint,
  count_below_interval,
}

abbrev pub Range : Type 0
Range = ℕ × ℕ

-- The order of Python's tuples.
abbrev pub range_le : Range → Range → Bool
range_le (a, b) (c, d) = ltb a c || (a == c && leb b d)

record Merge : Type 0 where
  total : ℤ
  end : Option ℕ

-- The body of the `for` loop.
merge_range : Merge → Range → Merge
merge_range m (start, stop) = elim m.end [
  | none ↦ record { total = m.total +ℤ sub_ℕ stop start; end = some stop }
  | some end ↦
      if ltb end start
      then record { total = m.total +ℤ sub_ℕ stop start; end = some stop }
      else if ltb end stop
      then record { total = m.total +ℤ sub_ℕ stop end; end = some stop }
      else m
]

merge_ranges : Merge → List Range → Merge
unfolding merge_range
merge_ranges m [] = m
merge_ranges m (r ∷ rs) = merge_ranges (merge_range m r) rs

unfoldable pub merged_bytes : List Range → ℤ
unfolding merge_ranges sort_by
merged_bytes ranges =
    (merge_ranges (record { total = pos 0; end = none }) (sort_by range_le ranges)).total

-- The specification: the addresses below a bound that lie in some range.
abbrev pub contains : ℕ → Range → Bool
contains n (start, stop) = leb start n && ltb n stop

abbrev pub covered : ℕ → List Range → ℕ
covered bound ranges = count_below bound (λ n. any (contains n) ranges)

-- A range that ends behind its start and below the bound.
abbrev pub Fits : ℕ → Range → Type 0
Fits bound (start, stop) = (start ≤ stop) × (stop ≤ bound)

merged_run : merged_bytes ((5, 9) ∷ (1, 3) ∷ (2, 6) ∷ (9, 9) ∷ (20, 22) ∷ []) ≡ pos 10
unfolding merged_bytes ◌+ℤ◌
merged_run = refl

range_le_total : (a b : Range) → range_le a b ≡ false → range_le b a ≡ true
range_le_total (a, b) (c, d) h = ground arith

range_le_trans : (a b c : Range) → range_le a b ≡ true → range_le b c ≡ true → range_le a c ≡ true
range_le_trans (a, b) (c, d) (e, f) h k = ground arith

-- Behind a range with the least start no address below that start is covered.
uncovered_below :
    (n : ℕ) (r : Range) (rs : List Range)
    → All (λ x. range_le r x ≡ true) rs
    → n < r.0
    → any (contains n) rs ≡ false
uncovered_below n r [] h k = refl
uncovered_below n r ((a, b) ∷ rs) h k = ground (arith, uncovered_below n r rs h.1 k)

-- What the rest of a sorted list covers from `end` on.
abbrev from_end : ℕ → ℕ → List Range → ℕ
from_end bound end rs = count_below bound (λ n. leb end n && any (contains n) rs)

module _ (bound start stop : ℕ) (rs : List Range)
    (least : All (λ x. range_le (start, stop) x ≡ true) rs) where
  -- A range that begins behind `end` adds its whole length.
  from_end_gap :
      (end : ℕ)
      → end < start
      → start ≤ stop
      → stop ≤ bound
      → from_end bound end ((start, stop) ∷ rs) ≡ (stop - start) + from_end bound stop rs
  from_end_gap end h k l =
      count_below_ext bound _
        (λ n. (leb start n && ltb n stop) || (leb stop n && any (contains n) rs))
        (λ n _. ground (arith, uncovered_below n (start, stop) rs least))
      ∙ count_below_disjoint bound (λ n. leb start n && ltb n stop)
          (λ n. leb stop n && any (contains n) rs) (λ n. ground arith)
      ∙ ap (λ (c : ℕ). c + from_end bound stop rs) (count_below_interval bound start stop k l)

  -- A range that overlaps what came before adds the part behind `end`.
  from_end_overlap :
      (end : ℕ)
      → start ≤ end
      → end < stop
      → stop ≤ bound
      → from_end bound end ((start, stop) ∷ rs) ≡ (stop - end) + from_end bound stop rs
  from_end_overlap end h k l =
      count_below_ext bound _
        (λ n. (leb end n && ltb n stop) || (leb stop n && any (contains n) rs))
        (λ n _. ground (arith, uncovered_below n (start, stop) rs least))
      ∙ count_below_disjoint bound (λ n. leb end n && ltb n stop)
          (λ n. leb stop n && any (contains n) rs) (λ n. ground arith)
      ∙ ap (λ (c : ℕ). c + from_end bound stop rs)
          (count_below_interval bound end stop (omega arith) l)

  -- A range that ends before `end` adds nothing.
  from_end_inside :
      (end : ℕ) → stop ≤ end → from_end bound end ((start, stop) ∷ rs) ≡ from_end bound end rs
  from_end_inside end h = count_below_ext bound _ _ (λ n _. ground arith)

  -- The first range of a sorted list adds its length.
  covered_first :
      start ≤ stop
      → stop ≤ bound
      → covered bound ((start, stop) ∷ rs) ≡ (stop - start) + from_end bound stop rs
  covered_first k l =
      count_below_ext bound _
        (λ n. (leb start n && ltb n stop) || (leb stop n && any (contains n) rs))
        (λ n _. ground (arith, uncovered_below n (start, stop) rs least))
      ∙ count_below_disjoint bound (λ n. leb start n && ltb n stop)
          (λ n. leb stop n && any (contains n) rs) (λ n. ground arith)
      ∙ ap (λ (c : ℕ). c + from_end bound stop rs) (count_below_interval bound start stop k l)

sub_ℕ-le : (a b : ℕ) → b ≤ a → sub_ℕ a b ≡ pos (a - b)
sub_ℕ-le a b h = ground arith

pos_sum : (t : ℤ) (a b c d : ℕ) → b ≤ a → c ≡ (a - b) + d → t +ℤ sub_ℕ a b +ℤ pos d ≡ t +ℤ pos c
pos_sum t a b c d h e = rw (sub_ℕ-le a b h) (omega int_laws)

add_zero_pos : (t : ℤ) (n : ℕ) → n ≡ 0 → t ≡ t +ℤ pos n
add_zero_pos t n e = omega int_laws

zero_add_pos : (n : ℕ) → pos 0 +ℤ pos n ≡ pos n
zero_add_pos n = omega int_laws

-- The loop counts each address from `end` on once.
merge_rest :
    (bound : ℕ) (total : ℤ) (end : ℕ) (rs : List Range)
    → IsSorted range_le rs
    → All (Fits bound) rs
    → (merge_ranges (record { total = total; end = some end }) rs).total
      ≡ total +ℤ pos (from_end bound end rs)
unfolding merge_ranges
merge_rest bound total end [] s f =
    add_zero_pos total _ (count_below_none bound _ (λ n. ground arith))
merge_rest bound total end ((a, b) ∷ rs) s f = ground (
  arith,
  merge_rest bound (total +ℤ sub_ℕ b a) b rs s.1 f.1,
  merge_rest bound (total +ℤ sub_ℕ b end) b rs s.1 f.1,
  merge_rest bound total end rs s.1 f.1,
  pos_sum total b a (from_end bound end ((a, b) ∷ rs)) (from_end bound b rs),
  pos_sum total b end (from_end bound end ((a, b) ∷ rs)) (from_end bound b rs),
  from_end_gap bound a b rs s.0 end,
  from_end_overlap bound a b rs s.0 end,
  from_end_inside bound a b rs s.0 end,
)

merge-All :
    (bound : ℕ) (rs : List Range)
    → IsSorted range_le rs
    → All (Fits bound) rs
    → (merge_ranges (record { total = pos 0; end = none }) rs).total ≡ pos (covered bound rs)
unfolding merge_ranges ◌+ℤ◌
merge-All bound [] s f = ap pos (sym (count_below_none bound _ (λ n. refl)))
merge-All bound ((a, b) ∷ rs) s f =
    merge_rest bound (pos 0 +ℤ sub_ℕ b a) b rs s.1 f.1
    ∙ pos_sum (pos 0) b a _ (from_end bound b rs) f.0.0 (covered_first bound a b rs s.0 f.0.0 f.0.1)
    ∙ zero_add_pos _

-- For ranges that do not end before their start, `merged_bytes` is the number of addresses below
-- any bound of the ranges that lie in at least one of them: overlaps, duplicates and the order of
-- the list do not matter.
pub merged_bytes-covered :
    (bound : ℕ) (ranges : List Range)
    → All (Fits bound) ranges
    → merged_bytes ranges ≡ pos (covered bound ranges)
unfolding merged_bytes
merged_bytes-covered bound ranges f =
    merge-All bound (sort_by range_le ranges)
      (sort_by-IsSorted range_le range_le_total range_le_trans ranges)
      (All-sort_by range_le (Fits bound) ranges f)
    ∙ ap pos (count_below_ext bound _ _ (λ n _. any-sort_by range_le (contains n) ranges))
