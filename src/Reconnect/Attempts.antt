-- ===== src/Reconnect/Attempts.antt =====
-- When `next_delay` grants another attempt, and how it counts.
use fred_rs.Prelude.{
  ℕ, zero, suc, ◌+◌, ◌-◌, ◌%◌, ◌≤◌, ◌<◌, ◌≡◌, refl, ap, sym, ◌∙◌, min, arith, true, false, ◌||◌,
  none, some, Bool-cases, inl, inr, ltb, ◌==◌, if◌then◌else◌,
}
use fred_rs.Machine.{Outcome, done, panicked, ◌>>=◌, u32_max}
use fred_rs.Reconnect.{
  ReconnectPolicy, constant, linear, exponential, next_delay, attempts_of, should_reconnect,
  saturating_incr, saturating_add, saturating_mul, saturating_pow, incr_with_max, add_jitter,
}

abbrev pub jitter_of : ReconnectPolicy → ℕ
jitter_of (constant c) = c.jitter
jitter_of (linear l) = l.jitter
jitter_of (exponential e) = e.jitter

abbrev max_attempts_of : ReconnectPolicy → ℕ
max_attempts_of (constant c) = c.max_attempts
max_attempts_of (linear l) = l.max_attempts
max_attempts_of (exponential e) = e.max_attempts

-- The policy with another count, and all else as it was.
abbrev pub with_attempts : ℕ → ReconnectPolicy → ReconnectPolicy
with_attempts n (constant c) = constant (record c { attempts = n })
with_attempts n (linear l) = linear (record l { attempts = n })
with_attempts n (exponential e) = exponential (record e { attempts = n })

add_jitter-done :
    (random delay jitter : ℕ)
    → 0 < jitter
    → add_jitter random delay jitter ≡ done (saturating_add delay (random % jitter))
unfolding add_jitter
add_jitter-done random delay jitter h = ground arith

incr_with_max-some :
    (curr m : ℕ)
    → ((m == 0) || ltb curr m) ≡ true
    → incr_with_max curr m ≡ some (saturating_incr curr)
unfolding incr_with_max
incr_with_max-some curr m h = ground arith

incr_with_max-none : (curr m : ℕ) → ((m == 0) || ltb curr m) ≡ false → incr_with_max curr m ≡ none
unfolding incr_with_max
incr_with_max-none curr m h = ground arith

-- The delay before the attempt that comes next, in milliseconds.
abbrev pub delay_ms : ℕ → ReconnectPolicy → ℕ
delay_ms random (constant c) = saturating_add c.delay (random % c.jitter)
delay_ms random (linear l) =
    min l.max_delay
      (saturating_add (saturating_mul l.delay (saturating_incr l.attempts)) (random % l.jitter))
delay_ms random (exponential e) = min e.max_delay (
    saturating_add
      (saturating_mul (saturating_pow e.mult (saturating_incr e.attempts - 1)) e.min_delay)
      (random % e.jitter))

-- With attempts left and a jitter above 0, the policy grants a delay, counts the attempt and changes nothing else.
pub next_delay-some :
    (random : ℕ) (p : ReconnectPolicy)
    → 0 < jitter_of p
    → should_reconnect p ≡ true
    → next_delay random p
      ≡ done (some (delay_ms random p), with_attempts (saturating_incr (attempts_of p)) p)
unfolding next_delay should_reconnect attempts_of
next_delay-some random (constant c) j h =
    rw (incr_with_max-some c.attempts c.max_attempts h, add_jitter-done random c.delay c.jitter j)
next_delay-some random (linear l) j h =
    rw (incr_with_max-some l.attempts l.max_attempts h, add_jitter-done random _ l.jitter j)
next_delay-some random (exponential e) j h =
    rw (incr_with_max-some e.attempts e.max_attempts h, add_jitter-done random _ e.jitter j)

-- With no attempts left, it grants nothing and stays as it was.
next_delay-none :
    (random : ℕ) (p : ReconnectPolicy)
    → should_reconnect p ≡ false
    → next_delay random p ≡ done (none, p)
unfolding next_delay should_reconnect
next_delay-none random (constant c) h = rw (incr_with_max-none c.attempts c.max_attempts h)
next_delay-none random (linear l) h = rw (incr_with_max-none l.attempts l.max_attempts h)
next_delay-none random (exponential e) h = rw (incr_with_max-none e.attempts e.max_attempts h)

-- With attempts left and a jitter of 0, `next_delay` panics: the range of the random number is empty.
next_delay-panicked :
    (random : ℕ) (p : ReconnectPolicy)
    → jitter_of p ≡ 0
    → should_reconnect p ≡ true
    → next_delay random p ≡ panicked
unfolding next_delay should_reconnect add_jitter
next_delay-panicked random (constant c) j h = rw (incr_with_max-some c.attempts c.max_attempts h, j)
next_delay-panicked random (linear l) j h = rw (incr_with_max-some l.attempts l.max_attempts h, j)
next_delay-panicked random (exponential e) j h =
    rw (incr_with_max-some e.attempts e.max_attempts h, j)

-- `next_delay` called again and again, as the reconnection loop does: how many calls grant a delay.
pub granted : ℕ → ℕ → ReconnectPolicy → Outcome ℕ
granted zero random p = done 0
granted (suc calls) random p = do
  (ms, p') ← next_delay random p
  rest ← granted calls random p'
  elim ms [ none ↦ done rest | some _ ↦ done (suc rest) ]

abbrev allowed : ℕ → ℕ → ℕ → ℕ
allowed calls attempts max = if max == 0 then calls else min calls (max - attempts)

should_reconnect_lem :
    (p : ReconnectPolicy)
    → should_reconnect p ≡ ((max_attempts_of p == 0) || ltb (attempts_of p) (max_attempts_of p))
unfolding should_reconnect attempts_of
should_reconnect_lem (constant c) = refl
should_reconnect_lem (linear l) = refl
should_reconnect_lem (exponential e) = refl

attempts_of-with : (n : ℕ) (p : ReconnectPolicy) → attempts_of (with_attempts n p) ≡ n
unfolding attempts_of
attempts_of-with n (constant c) = refl
attempts_of-with n (linear l) = refl
attempts_of-with n (exponential e) = refl

max_attempts_of-with :
    (n : ℕ) (p : ReconnectPolicy) → max_attempts_of (with_attempts n p) ≡ max_attempts_of p
max_attempts_of-with n (constant c) = refl
max_attempts_of-with n (linear l) = refl
max_attempts_of-with n (exponential e) = refl

jitter_of-with : (n : ℕ) (p : ReconnectPolicy) → jitter_of (with_attempts n p) ≡ jitter_of p
jitter_of-with n (constant c) = refl
jitter_of-with n (linear l) = refl
jitter_of-with n (exponential e) = refl

pub saturating_incr-exact : (n : ℕ) → n < u32_max → saturating_incr n ≡ n + 1
unfolding saturating_incr
saturating_incr-exact n h = omega arith

allowed-suc :
    (calls n m : ℕ)
    → ((m == 0) || ltb n m) ≡ true
    → suc (allowed calls (n + 1) m) ≡ allowed (suc calls) n m
allowed-suc calls n m h = ground arith

allowed-zero : (calls n m : ℕ) → ((m == 0) || ltb n m) ≡ false → allowed calls n m ≡ 0
allowed-zero calls n m h = ground arith

-- Asked any number of times that keeps the counter in its `u32`, a policy with a jitter above 0 grants the attempts that are
-- left, or every one where it has no limit.
pub granted-allowed :
    (calls random : ℕ) (p : ReconnectPolicy)
    → 0 < jitter_of p
    → attempts_of p + calls ≤ u32_max
    → granted calls random p ≡ done (allowed calls (attempts_of p) (max_attempts_of p))
unfolding granted
granted-allowed zero random p j small = ground arith
granted-allowed (suc calls) random p j small = elim (Bool-cases (should_reconnect p)) [
  | inl h ↦
      let h' = rw should_reconnect_lem at h in
      let n = attempts_of p in
      let next = with_attempts (n + 1) p in
      let rest =
        granted-allowed calls random next (rw jitter_of-with j)
          (rw attempts_of-with (omega arith)) in
      rw (next_delay-some random p j h, saturating_incr-exact n (omega arith), rest)
        (rw (attempts_of-with, max_attempts_of-with)
          (ap done (allowed-suc calls n (max_attempts_of p) h')))
  | inr h ↦
      let h' = rw should_reconnect_lem at h in
      let rest = granted-allowed calls random p j (omega arith) in
      rw (next_delay-none random p h, rest)
        (ap done (
          allowed-zero calls (attempts_of p) (max_attempts_of p) h'
          ∙ sym (allowed-zero (suc calls) (attempts_of p) (max_attempts_of p) h')))
]
