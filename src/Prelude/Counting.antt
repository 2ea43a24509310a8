-- ===== src/Prelude/Counting.antt =====
-- How many numbers below a bound satisfy a test.
use Prim.Native.Nat.{ℕ, zero, suc, ◌+◌, ◌-◌, ◌≤◌, ◌<◌, min}
use mathlib.Core.Path.{◌≡◌, refl}
use mathlib.Core.Bool.{Bool, false, ◌&&◌, ◌||◌}
use native.Mathlib.Omega.{arith}
use axoloty_embedded.Prelude.Tests.{ltb, leb, if◌then◌else◌}

unfoldable pub count_below : ℕ → (ℕ → Bool) → ℕ
count_below zero p = 0
count_below (suc n) p = (if p n then 1 else 0) + count_below n p

pub count_below_ext :
    (n : ℕ) (p q : ℕ → Bool) → ((i : ℕ) → i < n → p i ≡ q i) → count_below n p ≡ count_below n q
unfolding count_below
count_below_ext zero p q h = refl
count_below_ext (suc n) p q h =
    ground (arith, h n (omega arith), count_below_ext n p q (λ i k. h i (omega arith)))

pub count_below_none : (n : ℕ) (p : ℕ → Bool) → ((i : ℕ) → p i ≡ false) → count_below n p ≡ 0
unfolding count_below
count_below_none zero p h = refl
count_below_none (suc n) p h = ground (arith, h n, count_below_none n p h)

-- Tests that exclude one another: the counts add up.
pub count_below_disjoint :
    (n : ℕ) (p q : ℕ → Bool)
    → ((i : ℕ) → (p i && q i) ≡ false)
    → count_below n (λ i. p i || q i) ≡ count_below n p + count_below n q
unfolding count_below
count_below_disjoint zero p q h = omega arith
count_below_disjoint (suc n) p q h = ground (arith, h n, count_below_disjoint n p q h)

interval_below : (n a b : ℕ) → a ≤ b → count_below n (λ i. leb a i && ltb i b) + min a n ≡ min b n
unfolding count_below
interval_below zero a b h = omega arith
interval_below (suc n) a b h = ground (arith, interval_below n a b h)

-- An interval below the bound counts its length.
pub count_below_interval :
    (n a b : ℕ) → a ≤ b → b ≤ n → count_below n (λ i. leb a i && ltb i b) ≡ b - a
count_below_interval n a b h k = omega (arith, interval_below n a b h)
