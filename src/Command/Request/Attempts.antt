-- ===== src/Command/Request/Attempts.antt =====
-- How often a command is written: the count of the attempts against the limit.
use fred_rs.Prelude.{
  ℕ, zero, suc, ◌+◌, ◌<◌, ◌≤◌, ◌≡◌, refl, Bool, true, arith, ltb, leb, if◌then◌else◌, le→leb,
  gt→leb, ltb→lt, ltb→ge, Bool-cases, inl, inr, ap,
}
use fred_rs.Error.{RedisErrorKind, Result, ok, err, fail}
use fred_rs.Machine.{Profile, Outcome, done, ◌>>=◌, u32_max, u32_add-done}
use fred_rs.Command.Request.{
  RedisCommand, incr_check_attempted, attempts_left, set_try_once, should_send_write_error,
}

-- `n` attempts to write a command, up to the first that is refused.
unfoldable attempt : Profile → ℕ → ℕ → RedisCommand → Outcome (Result RedisCommand)
attempt p zero max c = done (ok c)
attempt p (suc n) max c = incr_check_attempted p max c >>= λ r. elim r [
  | ok c' ↦ attempt p n max c'
  | err e ↦ done (err e)
]

-- The refusal.
abbrev too_many : Outcome (Result RedisCommand)
too_many = done (fail RedisErrorKind.unknown "Too many failed write attempts.")

abbrev pub attempted_times : ℕ → RedisCommand → RedisCommand
attempted_times n c = record c { attempted = c.attempted + n }

attempts_left-ok : (max : ℕ) (c : RedisCommand) → c.attempted ≤ max → attempts_left max c ≡ ok c
attempts_left-ok max c h = ground arith

attempts_left-refused :
    (max : ℕ) (c : RedisCommand)
    → 0 < max
    → max < c.attempted
    → attempts_left max c ≡ fail RedisErrorKind.unknown "Too many failed write attempts."
attempts_left-refused max c pos h = ground arith

pub incr-ok :
    (p : Profile) (max : ℕ) (c : RedisCommand)
    → c.attempted < max
    → max ≤ u32_max
    → incr_check_attempted p max c ≡ done (ok (attempted_times 1 c))
unfolding incr_check_attempted
incr-ok p max c h small =
    rw (u32_add-done p c.attempted 1 (omega arith))
      (ap done (attempts_left-ok max (attempted_times 1 c) (omega arith)))

pub incr-refused :
    (p : Profile) (max : ℕ) (c : RedisCommand)
    → 0 < max
    → c.attempted ≡ max
    → max < u32_max
    → incr_check_attempted p max c ≡ too_many
unfolding incr_check_attempted
incr-refused p max c pos h small =
    rw (u32_add-done p c.attempted 1 (omega arith))
      (ap done (attempts_left-refused max (attempted_times 1 c) pos (omega arith)))

-- Of `n` attempts that start from a count not above the limit, all are made where the count stays within the limit, and
-- then it has grown by `n`; else the writes end with the error. The limit is neither 0 nor the largest `u32`.
attempt_lem :
    (p : Profile) (n : ℕ) (max : ℕ) (c : RedisCommand)
    → 0 < max
    → max < u32_max
    → c.attempted ≤ max
    → attempt p n max c
      ≡ (if leb (c.attempted + n) max then done (ok (attempted_times n c)) else too_many)
unfolding attempt
attempt_lem p zero max c pos small le =
    let same : c.attempted ≡ c.attempted + 0 = omega arith in
    rw (le→leb (c.attempted + 0) max (omega arith))
      (ap (λ (k : ℕ). done (ok (record c { attempted = k }))) same)
attempt_lem p (suc n) max c pos small le = elim (Bool-cases (ltb c.attempted max)) [
  | inl lt ↦
      let same : c.attempted + 1 + n ≡ c.attempted + suc n = omega arith in
      let lt = ltb→lt c.attempted max lt in
      rw
        (
          incr-ok p max c lt (omega arith),
          attempt_lem p n max (attempted_times 1 c) pos small (omega arith),
        )
        (ap (λ (k : ℕ). if leb k max then done (ok (record c { attempted = k })) else too_many)
          same)
  | inr ge ↦
      let ge = ltb→ge c.attempted max ge in
      rw
        (
          incr-refused p max c pos (omega arith) small,
          gt→leb (c.attempted + suc n) max (omega arith),
        )
        refl
]

-- Of a command that is marked to run once, a write error is returned to the caller, and the next attempt is refused. The
-- client's limit is neither 0 nor the largest `u32`.
set_try_once_lem :
    (p : Profile) (max : ℕ) (has_policy : Bool) (c : RedisCommand)
    → 0 < max
    → max < u32_max
    → (should_send_write_error max has_policy (set_try_once max c) ≡ true)
      × (incr_check_attempted p max (set_try_once max c) ≡ too_many)
unfolding set_try_once should_send_write_error
set_try_once_lem p max has_policy c pos small =
    (ground arith, incr-refused p max (record c { attempted = max }) pos refl small)
