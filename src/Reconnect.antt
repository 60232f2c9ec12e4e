-- ===== src/Reconnect.antt =====
-- `ReconnectPolicy` of src/types/config.rs, with `incr_with_max` and `add_jitter` of src/utils.rs.
pub mod Saturating
pub mod Bounds
pub mod Attempts
use fred_rs.Prelude.{
  ℕ, zero, suc, ◌+◌, ◌-◌, ◌*◌, ◌%◌, Bool, true, false, not, ◌&&◌, ◌||◌, Option, none, some, min,
  ltb, leb, ◌==◌, if◌then◌else◌,
}
use fred_rs.Machine.{Outcome, done, panicked, ◌>>=◌, u32_max, u64_max}

-- DEFAULT_JITTER_MS
abbrev default_jitter_ms : ℕ
default_jitter_ms = 100

pub record Constant : Type 0 where
  pub attempts : ℕ
  pub max_attempts : ℕ
  pub delay : ℕ
  pub jitter : ℕ

pub record Linear : Type 0 where
  pub attempts : ℕ
  pub max_attempts : ℕ
  pub max_delay : ℕ
  pub delay : ℕ
  pub jitter : ℕ

pub record Exponential : Type 0 where
  pub attempts : ℕ
  pub max_attempts : ℕ
  pub min_delay : ℕ
  pub max_delay : ℕ
  pub mult : ℕ
  pub jitter : ℕ

pub data ReconnectPolicy : Type 0 where
  constant : Constant → ReconnectPolicy
  linear : Linear → ReconnectPolicy
  exponential : Exponential → ReconnectPolicy

-- `Default for ReconnectPolicy`.
unfoldable default_policy : ReconnectPolicy
default_policy =
    constant (record { attempts = 0; max_attempts = 0; delay = 1000; jitter = default_jitter_ms })

unfoldable new_constant : ℕ → ℕ → ReconnectPolicy
new_constant max_attempts delay = constant (record {
  attempts = 0;
  max_attempts = max_attempts;
  delay = delay;
  jitter = default_jitter_ms;
})

unfoldable new_linear : ℕ → ℕ → ℕ → ReconnectPolicy
new_linear max_attempts max_delay delay = linear (record {
  attempts = 0;
  max_attempts = max_attempts;
  max_delay = max_delay;
  delay = delay;
  jitter = default_jitter_ms;
})

unfoldable new_exponential : ℕ → ℕ → ℕ → ℕ → ReconnectPolicy
new_exponential max_attempts min_delay max_delay mult = exponential (record {
  attempts = 0;
  max_attempts = max_attempts;
  min_delay = min_delay;
  max_delay = max_delay;
  mult = mult;
  jitter = default_jitter_ms;
})

unfoldable set_jitter : ReconnectPolicy → ℕ → ReconnectPolicy
set_jitter (constant c) jitter_ms = constant (record c { jitter = jitter_ms })
set_jitter (linear l) jitter_ms = linear (record l { jitter = jitter_ms })
set_jitter (exponential e) jitter_ms = exponential (record e { jitter = jitter_ms })

unfoldable reset_attempts : ReconnectPolicy → ReconnectPolicy
reset_attempts (constant c) = constant (record c { attempts = 0 })
reset_attempts (linear l) = linear (record l { attempts = 0 })
reset_attempts (exponential e) = exponential (record e { attempts = 0 })

-- `ReconnectPolicy::attempts`.
unfoldable pub attempts_of : ReconnectPolicy → ℕ
attempts_of (constant c) = c.attempts
attempts_of (linear l) = l.attempts
attempts_of (exponential e) = e.attempts

unfoldable pub should_reconnect : ReconnectPolicy → Bool
should_reconnect (constant c) = (c.max_attempts == 0) || ltb c.attempts c.max_attempts
should_reconnect (linear l) = (l.max_attempts == 0) || ltb l.attempts l.max_attempts
should_reconnect (exponential e) = (e.max_attempts == 0) || ltb e.attempts e.max_attempts

-- `u32::saturating_add(1)` and the saturating operations on `u64`.
unfoldable pub saturating_incr : ℕ → ℕ
saturating_incr n = min (n + 1) u32_max

unfoldable pub saturating_add : ℕ → ℕ → ℕ
saturating_add a b = min (a + b) u64_max

unfoldable pub saturating_mul : ℕ → ℕ → ℕ
saturating_mul a b = min (a * b) u64_max

-- `u64::saturating_pow`: the product, held at the greatest value once it passes it.
unfoldable pub saturating_pow : ℕ → ℕ → ℕ
unfolding saturating_mul
saturating_pow a zero = 1
saturating_pow a (suc n) = saturating_mul a (saturating_pow a n)

-- `incr_with_max`.
unfoldable pub incr_with_max : ℕ → ℕ → Option ℕ
unfolding saturating_incr
incr_with_max curr max =
    if not (max == 0) && leb max curr then none else some (saturating_incr curr)

-- `add_jitter`: `gen_range(0 .. jitter)` panics on the empty range, and otherwise draws a number
-- below `jitter`; the draw is the remainder of the argument `random`.
unfoldable pub add_jitter : ℕ → ℕ → ℕ → Outcome ℕ
unfolding saturating_add
add_jitter random delay jitter =
    if jitter == 0 then panicked else done (saturating_add delay (random % jitter))

abbrev capped : ℕ → Outcome ℕ → Outcome ℕ
capped max_delay d = do ms ← d; done (min max_delay ms)

-- The new policy with the delay in milliseconds, or with nothing once the attempts are used up.
abbrev pub Next : Type 0
Next = Outcome (Option ℕ × ReconnectPolicy)

abbrev next_constant : ℕ → Constant → Option ℕ → Next
next_constant random c none = done (none, constant c)
next_constant random c (some attempts) = do
  ms ← add_jitter random c.delay c.jitter
  done (some ms, constant (record c { attempts = attempts }))

abbrev next_linear : ℕ → Linear → Option ℕ → Next
next_linear random l none = done (none, linear l)
next_linear random l (some attempts) = do
  ms ← capped l.max_delay (add_jitter random (saturating_mul l.delay attempts) l.jitter)
  done (some ms, linear (record l { attempts = attempts }))

-- `attempts - 1`: a counter that was just incremented is not 0.
abbrev next_exponential : ℕ → Exponential → Option ℕ → Next
next_exponential random e none = done (none, exponential e)
next_exponential random e (some attempts) = do
  let delay = saturating_mul (saturating_pow e.mult (attempts - 1)) e.min_delay
  ms ← capped e.max_delay (add_jitter random delay e.jitter)
  done (some ms, exponential (record e { attempts = attempts }))

-- `ReconnectPolicy::next_delay`.
unfoldable pub next_delay : ℕ → ReconnectPolicy → Next
unfolding incr_with_max add_jitter
next_delay random (constant c) = next_constant random c (incr_with_max c.attempts c.max_attempts)
next_delay random (linear l) = next_linear random l (incr_with_max l.attempts l.max_attempts)
next_delay random (exponential e) =
    next_exponential random e (incr_with_max e.attempts e.max_attempts)
