-- ===== src/Prelude/Arith.antt =====
-- Order and products.
use Prim.Native.Nat.{ℕ, zero, suc, ◌*◌, ◌^◌, ◌≤◌}
use native.Mathlib.Nat.{mul-le-mul_right, mul-le-mul_left, pow-zero}
use native.Mathlib.Omega.{arith, pow_step}

pub mul_mono : (a b c d : ℕ) → a ≤ b → c ≤ d → a * c ≤ b * d
mul_mono a b c d h k = omega (arith, mul-le-mul_right c h, mul-le-mul_left b k)

pub pow_mono : (a b k : ℕ) → a ≤ b → a ^ k ≤ b ^ k
pow_mono a b zero h = rw (pow-zero a, pow-zero b) (omega arith)
pow_mono a b (suc k) h = rw (pow_step a k, pow_step b k) (mul_mono a b _ _ h (pow_mono a b k h))
