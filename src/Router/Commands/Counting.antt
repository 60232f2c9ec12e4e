-- ===== src/Router/Commands/Counting.antt =====
-- About src/router/commands.rs and src/router/mod.rs: every write counts an attempt, within the limit.
use fred_rs.Prelude.{
  ℕ, ◌≤◌, ◌<◌, ◌≡◌, refl, Bool, true, false, Option, none, some, ltb, if◌then◌else◌, Bool-cases,
  inl, inr, arith, ltb→lt, ltb→ge,
}
use fred_rs.Error.{Result, ok, err}
use fred_rs.Machine.{Profile, Outcome, done, u32_max}
use fred_rs.Cluster.Types.{Server}
use fred_rs.Command.Request.{RedisCommand}
use fred_rs.Command.Request.Attempts.{incr-ok, incr-refused, attempted_times}
use fred_rs.Router.Writer.{Written}
use fred_rs.Router.Commands.{
  Attempt, Response, Wire, Settings, write_command, write_replica_command, Write, sent_on,
  buffered_if, goes_to_all, fallen_back, from_primary, on_primary,
}

-- A command that is given back counts as many attempts as it did.
abbrev IsSame : ℕ → Written → Type 0
IsSame n (Written.backpressure c b) = c.attempted ≡ n
IsSame n (Written.sent server flushed) = Unit
IsSame n Written.sent_all = Unit
IsSame n (Written.disconnect server c e) = Unit
IsSame n Written.ignore = Unit
IsSame n (Written.sync c) = Unit

abbrev pub IsSameAttempt : ℕ → Attempt → Type 0
IsSameAttempt n (Attempt.wrote w) = IsSame n w
IsSameAttempt n (Attempt.unwritten e c) = c.attempted ≡ n

abbrev pub IsSameResult : ℕ → Result Written → Type 0
IsSameResult n (ok w) = IsSame n w
IsSameResult n (err e) = Unit

abbrev pub IsSameResponse : ℕ → Response → Type 0
IsSameResponse n Response.dropped = Unit
IsSameResponse n Response.continue = Unit
IsSameResponse n Response.transaction = Unit
IsSameResponse n (Response.ask slot server c) = c.attempted ≡ n
IsSameResponse n (Response.moved slot server c) = c.attempted ≡ n
IsSameResponse n (Response.connection_closed e c) = c.attempted ≡ n

module _ (settings : Settings) where
  -- What is not ignored has one more attempt than `n`, within the limit.
  abbrev pub IsAdvanced : ℕ → RedisCommand → Result Written → Type 0
  IsAdvanced n c (ok Written.ignore) = Unit
  IsAdvanced n c r =
      (n < c.attempted) × (c.attempted ≤ settings.max_command_attempts) × IsSameResult c.attempted r

  advanced :
      (n : ℕ) (c : RedisCommand) (r : Result Written)
      → n < c.attempted
      → c.attempted ≤ settings.max_command_attempts
      → IsSameResult c.attempted r
      → IsAdvanced n c r
  advanced n c (ok Written.ignore) h k e = tt
  advanced n c (ok (Written.backpressure back b)) h k e = (h, k, e)
  advanced n c (ok (Written.sent server flushed)) h k e = (h, k, e)
  advanced n c (ok Written.sent_all) h k e = (h, k, e)
  advanced n c (ok (Written.disconnect server back x)) h k e = (h, k, e)
  advanced n c (ok (Written.sync back)) h k e = (h, k, e)
  advanced n c (err x) h k e = (h, k, e)

  weakened :
      (m n : ℕ) (c : RedisCommand) (r : Result Written)
      → m ≤ n
      → IsAdvanced n c r
      → IsAdvanced m c r
  weakened m n c (ok Written.ignore) h k = tt
  weakened m n c (ok (Written.backpressure back b)) h (a, b', d) = (omega arith, b', d)
  weakened m n c (ok (Written.sent server flushed)) h (a, b, d) = (omega arith, b, d)
  weakened m n c (ok Written.sent_all) h (a, b, d) = (omega arith, b, d)
  weakened m n c (ok (Written.disconnect server back x)) h (a, b, d) = (omega arith, b, d)
  weakened m n c (ok (Written.sync back)) h (a, b, d) = (omega arith, b, d)
  weakened m n c (err x) h (a, b, d) = (omega arith, b, d)

module _ {ℓ} {S : Type ℓ} (wire : Wire S) (settings : Settings) (p : Profile) where
  abbrev pub Advances : ℕ → Outcome (Write wire settings p) → Type ℓ
  Advances n m = (w : Write wire settings p) × (m ≡ done w) × IsAdvanced settings n w.2 w.3

  pub either-Advances :
      (n : ℕ) (b : Bool) {x y : Outcome (Write wire settings p)}
      → Advances n x
      → Advances n y
      → Advances n (if b then x else y)
  either-Advances n true a b = a
  either-Advances n false a b = b

module _ {ℓ} {S : Type ℓ} (wire : Wire S) (settings : Settings) (p : Profile)
    (positive : 0 < settings.max_command_attempts) (small : settings.max_command_attempts < u32_max)
    (write_same : (s : S) (c : RedisCommand) → IsSameAttempt c.attempted (wire.write_command s c).0)
    (all_same : (s : S) (c : RedisCommand)
      → IsSameResult c.attempted (wire.write_all_cluster s c).0)
    (replica_same : (s : S) (server : Server) (c : RedisCommand)
      → IsSameAttempt c.attempted (wire.write_replica s server c).0) where
  buffered_if-IsAdvanced :
      (n : ℕ) (c : RedisCommand) (a : Attempt × S)
      → n < c.attempted
      → c.attempted ≤ settings.max_command_attempts
      → IsSameAttempt c.attempted a.0
      → IsAdvanced settings n
          (buffered_if wire settings p c a).2
          (buffered_if wire settings p c a).3
  buffered_if-IsAdvanced n c (Attempt.wrote w, s) h k e = advanced settings n c (ok w) h k e
  buffered_if-IsAdvanced n c (Attempt.unwritten x c', s) h k e =
      advanced settings n c (err x) h k tt

  sent_on-IsAdvanced :
      (n : ℕ) (s : S) (c : RedisCommand)
      → n < c.attempted
      → c.attempted ≤ settings.max_command_attempts
      → IsAdvanced settings n (sent_on wire settings p s c).2 (sent_on wire settings p s c).3
  sent_on-IsAdvanced n s c h k = elim (Bool-cases (goes_to_all wire settings p c)) [
    | inl q ↦ rw (q) (advanced settings n c _ h k (all_same s c))
    | inr q ↦ rw (q) (buffered_if-IsAdvanced n c _ h k (write_same s c))
  ]

  pub write_command-Advances :
      (s : S) (c : RedisCommand)
      → c.attempted ≤ settings.max_command_attempts
      → Advances wire settings p c.attempted (write_command wire settings p s c)
  unfolding write_command
  write_command-Advances s c h = elim (Bool-cases (ltb c.attempted settings.max_command_attempts)) [
    | inl lt ↦
        let lt = ltb→lt c.attempted settings.max_command_attempts lt in
        rw (incr-ok p settings.max_command_attempts c lt (omega arith)) (
          _,
          refl,
          sent_on-IsAdvanced c.attempted s (attempted_times 1 c) (omega arith) (omega arith),
        )
    | inr ge ↦
        let ge = ltb→ge c.attempted settings.max_command_attempts ge in
        rw (incr-refused p settings.max_command_attempts c positive (omega arith) small)
          (_, refl, tt)
  ]

  fallen_back-Advances :
      (n : ℕ) (c : RedisCommand) (a : Attempt × S)
      → n < c.attempted
      → c.attempted ≤ settings.max_command_attempts
      → IsSameAttempt c.attempted a.0
      → Advances wire settings p n (fallen_back wire settings p c a)
  fallen_back-Advances n c (Attempt.wrote w, s) h k e =
      (_, refl, advanced settings n c (ok w) h k e)
  fallen_back-Advances n c (Attempt.unwritten x c', s) h k e =
      elim (Bool-cases settings.primary_fallback) [
        | inl q ↦
            let (w, done_with, a) =
              write_command-Advances s (on_primary wire settings p c') (omega arith) in
            simp (q) (w, done_with, weakened settings n c'.attempted w.2 w.3 (omega arith) a)
        | inr q ↦ simp (q) (_, refl, (h, k, tt))
      ]

  from_primary-Advances :
      (primary : Option Server) (s : S) (c : RedisCommand)
      → c.attempted ≤ settings.max_command_attempts
      → Advances wire settings p c.attempted (from_primary wire settings p primary s c)
  from_primary-Advances (some primary) s c h =
      elim (Bool-cases (ltb c.attempted settings.max_command_attempts)) [
        | inl lt ↦
            let lt = ltb→lt c.attempted settings.max_command_attempts lt in
            rw (incr-ok p settings.max_command_attempts c lt (omega arith)) (
              fallen_back-Advances c.attempted (attempted_times 1 c) _ (omega arith) (omega arith)
                (replica_same s primary (attempted_times 1 c)))
        | inr ge ↦
            let ge = ltb→ge c.attempted settings.max_command_attempts ge in
            rw (incr-refused p settings.max_command_attempts c positive (omega arith) small)
              (_, refl, tt)
      ]
  from_primary-Advances none s c h = elim (Bool-cases settings.primary_fallback) [
    | inl q ↦ simp (q) (write_command-Advances s (on_primary wire settings p c) h)
    | inr q ↦ simp (q) (_, refl, tt)
  ]

  pub write_replica_command-Advances :
      (s : S) (c : RedisCommand)
      → c.attempted ≤ settings.max_command_attempts
      → Advances wire settings p c.attempted (write_replica_command wire settings p s c)
  unfolding write_replica_command
  write_replica_command-Advances s c h =
      either-Advances wire settings p c.attempted c.use_replica
        (from_primary-Advances (wire.find_connection s c) s c h) (write_command-Advances s c h)
