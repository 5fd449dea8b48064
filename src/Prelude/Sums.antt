-- ===== src/Prelude/Sums.antt =====
-- Sums over consecutive numbers, and of periodic functions over a period.
use Prim.Native.Nat.{ℕ, zero, suc, ◌+◌}
use mathlib.Core.Path.{◌≡◌, refl, ap, ◌∙◌}
use native.Mathlib.Omega.{arith}

pub plus_zero : (i : ℕ) → i + 0 ≡ i
plus_zero i = omega arith

pub plus_suc : (i k : ℕ) → (i + 1) + k ≡ i + suc k
plus_suc i k = omega arith

suc-eq : (i : ℕ) → suc i ≡ i + 1
suc-eq i = omega arith

module _ (f : ℕ → ℕ) where
  -- The `k` values from `i` on.
  abbrev pub sum_from : ℕ → ℕ → ℕ
  sum_from i zero = 0
  sum_from i (suc k) = f i + sum_from (i + 1) k

  sum_from-suc : (i k : ℕ) → sum_from i (suc k) ≡ sum_from i k + f (i + k)
  sum_from-suc i zero = omega (arith, ap f (plus_zero i))
  sum_from-suc i (suc k) = omega (arith, sum_from-suc (i + 1) k, ap f (plus_suc i k))

  module _ (n : ℕ) (period : (i : ℕ) → f (i + n) ≡ f i) where
    sum_from-shift : (i : ℕ) → sum_from (i + 1) n ≡ sum_from i n
    sum_from-shift i = omega (arith, sum_from-suc i n, period i)

    -- Over a period the sum is the same from wherever it starts.
    pub sum_from-period : (i : ℕ) → sum_from i n ≡ sum_from 0 n
    sum_from-period zero = refl
    sum_from-period (suc i) =
        ap (λ j. sum_from j n) (suc-eq i) ∙ sum_from-shift i ∙ sum_from-period i
