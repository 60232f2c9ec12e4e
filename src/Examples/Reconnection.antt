-- ===== src/Examples/Reconnection.antt =====
-- Reconnection policies.
use fred_rs.Prelude.{ℕ, ◌+◌, ◌<◌, ◌≤◌, ◌≡◌, refl, some, min, arith}
use fred_rs.Machine.{done}
use fred_rs.Reconnect.{ReconnectPolicy, exponential, next_delay, should_reconnect, attempts_of}
use fred_rs.Reconnect.Attempts.{granted, granted-allowed}
use fred_rs.Reconnect.Bounds.{next_delay-bounds, cap_of, base_delay, jitter_bound}

-- Five attempts, from a tenth of a second on, doubled up to ten seconds.
abbrev doubling : ℕ → ReconnectPolicy
doubling attempts = exponential (record {
  attempts = attempts;
  max_attempts = 5;
  min_delay = 100;
  max_delay = 10000;
  mult = 2;
  jitter = 100;
})

abbrev calm : ReconnectPolicy
calm = exponential (record {
  attempts = 0;
  max_attempts = 5;
  min_delay = 100;
  max_delay = 10000;
  mult = 2;
  jitter = 0;
})

granted-allowed_example : granted 20 7 (doubling 2) ≡ done 3
unfolding attempts_of
granted-allowed_example = granted-allowed 20 7 (doubling 2) (omega arith) (omega arith)

next_delay-bounds_example :
    (ms : ℕ) × (p' : ReconnectPolicy) × (next_delay 7 (doubling 3) ≡ done (some ms, p'))
    × (min (cap_of (doubling 3)) (base_delay (doubling 3)) ≤ ms)
    × (ms ≤ cap_of (doubling 3))
    × (ms < base_delay (doubling 3) + jitter_bound (doubling 3))
unfolding should_reconnect
next_delay-bounds_example =
    next_delay-bounds 7 (doubling 3) (omega arith, omega arith, omega arith, omega arith) refl
