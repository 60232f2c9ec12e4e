-- ===== src/Reconnect/Bounds.antt =====
-- The delays that a policy grants.
use fred_rs.Prelude.{ℕ, ◌+◌, ◌-◌, ◌*◌, ◌^◌, ◌%◌, ◌≤◌, ◌<◌, ◌≡◌, refl, true, some, min, arith}
use fred_rs.Machine.{done, u32_max, u64_max}
use fred_rs.Reconnect.{
  should_reconnect, next_delay, attempts_of, ReconnectPolicy, constant, linear, exponential,
  saturating_incr, saturating_add, saturating_mul, saturating_pow,
}
use fred_rs.Reconnect.Attempts.{
  delay_ms, next_delay-some, jitter_of, with_attempts, saturating_incr-exact,
}
use fred_rs.Reconnect.Saturating.{saturating_pow-min, saturating_mul-min}

-- The delay without its jitter, in exact arithmetic.
abbrev pub base_delay : ReconnectPolicy → ℕ
base_delay (constant c) = c.delay
base_delay (linear l) = l.delay * (l.attempts + 1)
base_delay (exponential e) = e.mult ^ e.attempts * e.min_delay

abbrev pub cap_of : ReconnectPolicy → ℕ
cap_of (constant c) = u64_max
cap_of (linear l) = l.max_delay
cap_of (exponential e) = e.max_delay

-- Every field is a `u32`, and the counter has not reached its maximum.
abbrev InRange : ReconnectPolicy → Type 0
InRange (constant c) = (c.delay ≤ u32_max) × (0 < c.jitter) × (c.jitter ≤ u32_max)
InRange (linear l) =
    (l.delay ≤ u32_max) × (l.attempts < u32_max) × (l.max_delay ≤ u32_max) × (0 < l.jitter)
InRange (exponential e) =
    (e.min_delay ≤ u32_max) × (e.attempts < u32_max) × (e.max_delay ≤ u32_max) × (0 < e.jitter)

abbrev pub jitter_bound : ReconnectPolicy → ℕ
jitter_bound (constant c) = c.jitter
jitter_bound (linear l) = l.jitter
jitter_bound (exponential e) = e.jitter

capped_bounds :
    (cap base x draw j : ℕ)
    → cap ≤ u32_max
    → 0 < j
    → x ≡ min base u64_max
    → (min cap base ≤ min cap (saturating_add x (draw % j)))
      × (min cap (saturating_add x (draw % j)) ≤ cap)
      × (min cap (saturating_add x (draw % j)) < base + j)
unfolding saturating_add
capped_bounds cap base x draw j c h e = (omega arith, omega arith, omega arith)

delay_ms_bounds :
    (random : ℕ) (p : ReconnectPolicy)
    → InRange p
    → (min (cap_of p) (base_delay p) ≤ delay_ms random p)
      × (delay_ms random p ≤ cap_of p)
      × (delay_ms random p < base_delay p + jitter_bound p)
unfolding saturating_add
delay_ms_bounds random (constant c) (d, j, k) = (omega arith, omega arith, omega arith)
delay_ms_bounds random (linear l) (d, a, m, j) =
    capped_bounds l.max_delay (l.delay * (l.attempts + 1))
      (saturating_mul l.delay (saturating_incr l.attempts)) random l.jitter m j
      (rw (saturating_incr-exact l.attempts a) (unfold saturating_mul in refl))
delay_ms_bounds random (exponential e) (d, a, m, j) =
    capped_bounds e.max_delay (e.mult ^ e.attempts * e.min_delay)
      (saturating_mul (saturating_pow e.mult (saturating_incr e.attempts - 1)) e.min_delay) random
      e.jitter m j
      (rw (saturating_incr-exact e.attempts a, minus_one e.attempts, saturating_pow-min)
        (saturating_mul-min (e.mult ^ e.attempts) e.min_delay))
  where
    minus_one : (n : ℕ) → n + 1 - 1 ≡ n
    minus_one n = omega arith

jitter-InRange : (p : ReconnectPolicy) → InRange p → 0 < jitter_of p
jitter-InRange (constant c) h = h.1
jitter-InRange (linear l) h = h.3
jitter-InRange (exponential e) h = h.3

-- Where every field is in range, the counter is below its maximum and attempts are left, `next_delay` grants a delay that is
-- at least the base delay or the cap, at most the cap, and below the base delay with all its jitter.
pub next_delay-bounds :
    (random : ℕ) (p : ReconnectPolicy)
    → InRange p
    → should_reconnect p ≡ true
    → (ms : ℕ) × (p' : ReconnectPolicy) × (next_delay random p ≡ done (some ms, p'))
      × (min (cap_of p) (base_delay p) ≤ ms)
      × (ms ≤ cap_of p)
      × (ms < base_delay p + jitter_bound p)
next_delay-bounds random p h left =
    let (low, high, close) = delay_ms_bounds random p h in
    (
      delay_ms random p,
      with_attempts (saturating_incr (attempts_of p)) p,
      next_delay-some random p (jitter-InRange p h) left,
      low,
      high,
      close,
    )
