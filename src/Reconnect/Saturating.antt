-- ===== src/Reconnect/Saturating.antt =====
-- Saturating arithmetic against the exact one.
use native.Mathlib.Nat.{mul_comm, pow-suc, pow-zero, mul-le-mul}
use fred_rs.Prelude.{
  ℕ, zero, suc, ◌*◌, ◌^◌, ◌≤◌, ◌≡◌, min, arith, Bool-cases, inl, inr, leb, leb→le, leb→gt,
}
use fred_rs.Machine.{u32_max, u64_max}
use fred_rs.Reconnect.{saturating_mul, saturating_pow}

saturating_mul-exact : (a b : ℕ) → a * b ≤ u64_max → saturating_mul a b ≡ a * b
unfolding saturating_mul
saturating_mul-exact a b h = omega arith

-- The product of two 32-bit numbers.
square_fits : (k : ℕ) → k ≤ u32_max * u32_max → k ≤ u64_max
square_fits k h = omega arith

mul_u32 : (a b : ℕ) → a ≤ u32_max → b ≤ u32_max → a * b ≤ u64_max
mul_u32 a b h k = square_fits (a * b) (mul-le-mul h k)

min_step : (a r m : ℕ) → min (a * min r m) m ≡ min (r * a) m
min_step zero r m = omega arith
min_step (suc a) r m = elim (Bool-cases (leb r m)) [
  | inl le ↦ let e : min r m ≡ r = omega (arith, leb→le r m le) in rw e (omega arith)
  | inr gt ↦ let gt' = leb→gt r m gt in let e : min r m ≡ m = omega arith in rw e (grind arith)
]

-- Holding every step at the maximum is holding the result there.
pub saturating_pow-min : (a n : ℕ) → saturating_pow a n ≡ min (a ^ n) u64_max
unfolding saturating_pow
saturating_pow-min a zero = rw pow-zero
saturating_pow-min a (suc n) =
    rw (saturating_pow-min a n, pow-suc) (unfold saturating_mul in min_step a (a ^ n) u64_max)

-- A saturated factor saturates the product.
pub saturating_mul-min : (r k : ℕ) → saturating_mul (min r u64_max) k ≡ min (r * k) u64_max
unfolding saturating_mul
saturating_mul-min r k = rw (mul_comm (min r u64_max) k) (min_step k r u64_max)
