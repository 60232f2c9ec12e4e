-- ===== src/Router/Commands/Waiting.antt =====
-- About src/router/commands.rs: what backpressure does to the attempts of a command.
use fred_rs.Prelude.{
  ℕ, zero, suc, ◌+◌, ◌<◌, ◌≡◌, refl, Bool, true, false, ◌||◌, Option, none, some, List, [], ◌∷◌,
  if◌then◌else◌, arith, ap, ◌∙◌, ◌⊎◌, inl, inr,
}
use fred_rs.Error.{RedisErrorKind, Result, ok, err, fail}
use fred_rs.Machine.{Profile, Outcome, done, ◌>>=◌, u32_max}
use fred_rs.Command.Request.{RedisCommand}
use fred_rs.Command.Request.Attempts.{incr-ok, incr-refused, attempted_times}
use fred_rs.Router.Writer.{Written, Backpressure}
use fred_rs.Router.Commands.{
  Attempt, Wire, Settings, Fate, Next, write_command, write_once, round, write_from,
  write_with_backpressure, sent_on, buffered_if, goes_to_all, with_channel, waited, prefixed, Write,
  with_fates, after_write,
}

-- The caller is told that there were too many attempts, and that is all.
abbrev pub IsRefused {ℓ} : {S : Type ℓ} → Outcome (S × List Fate × Result (Unit {0})) → Type ℓ
IsRefused {S = S} m =
    (s' : S) × (c' : RedisCommand) × (m
      ≡ done (
        s',
        Fate.answered c' (fail RedisErrorKind.unknown "Too many failed write attempts.") ∷ [],
        ok tt,
      ))

module _ {ℓ} {S : Type ℓ} (wire : Wire S) (settings : Settings) (p : Profile)
    (delay : S → RedisCommand → ℕ) (positive : 0 < settings.max_command_attempts)
    (small : settings.max_command_attempts < u32_max)
    (hinders : (s : S) (c : RedisCommand)
      → c.skip_backpressure ≡ false
      → (wire.write_command s c).0
        ≡ Attempt.wrote (Written.backpressure c (Backpressure.wait (delay s c))))
    (waits : (s : S) (ms : ℕ) → (wire.wait s ms).0 ≡ ok tt) where
  -- A command of the primary nodes that does not go to all of them, and that backpressure applies to.
  abbrev pub IsPlain : RedisCommand → Type 0
  IsPlain c =
      (c.use_replica ≡ false)
      × (goes_to_all wire settings p c ≡ false)
      × (c.skip_backpressure ≡ false)

  buffered_if-hindered :
      (c : RedisCommand) (ms : ℕ) (a : Attempt × S)
      → a.0 ≡ Attempt.wrote (Written.backpressure c (Backpressure.wait ms))
      → buffered_if wire settings p c a
        ≡ (a.1, [], c, ok (Written.backpressure c (Backpressure.wait ms)))
  buffered_if-hindered c ms (Attempt.wrote w, s) e = ground arith
  buffered_if-hindered c ms (Attempt.unwritten x c', s) e = absurd (ground arith)

  sent_on-hindered :
      (s : S) (c : RedisCommand)
      → goes_to_all wire settings p c ≡ false
      → c.skip_backpressure ≡ false
      → sent_on wire settings p s c ≡ (
        (wire.write_command s c).1,
        [],
        c,
        ok (Written.backpressure c (Backpressure.wait (delay s c))),
      )
  sent_on-hindered s c e k =
      rw (e) (buffered_if-hindered c (delay s c) (wire.write_command s c) (hinders s c k))

  write_command-hindered :
      (s : S) (c : RedisCommand)
      → goes_to_all wire settings p c ≡ false
      → c.skip_backpressure ≡ false
      → c.attempted < settings.max_command_attempts
      → write_command wire settings p s c
        ≡ done (
          (wire.write_command s (attempted_times 1 c)).1,
          [],
          attempted_times 1 c,
          ok (
              Written.backpressure
                (attempted_times 1 c)
                (Backpressure.wait (delay s (attempted_times 1 c)))),
        )
  unfolding write_command
  write_command-hindered s c g k h =
      rw (incr-ok p settings.max_command_attempts c h (omega arith))
        (ap done (sent_on-hindered s (attempted_times 1 c) g k))

  write_command-refused :
      (s : S) (c : RedisCommand)
      → c.attempted ≡ settings.max_command_attempts
      → write_command wire settings p s c
        ≡ done (
          s,
          Fate.answered c (fail RedisErrorKind.unknown "Too many failed write attempts.") ∷ [],
          c,
          ok Written.ignore,
        )
  unfolding write_command
  write_command-refused s c h =
      rw (incr-refused p settings.max_command_attempts c positive h small) refl

  chosen : (b : Bool) (x y : Outcome (Write wire settings p)) → b ≡ false → (if b then x else y) ≡ y
  chosen true x y e = absurd (ground arith)
  chosen false x y e = refl

  write_once-hindered :
      (rx channel : Bool) (c : RedisCommand) (s : S)
      → IsPlain c
      → c.attempted < settings.max_command_attempts
      → write_once wire settings p rx channel c s
        ≡ done (
          (wire.write_command s (attempted_times 1 c)).1,
          [],
          Next.again
              (attempted_times 1 c)
              (some (Backpressure.wait (delay s (attempted_times 1 c))))
              (channel || rx),
        )
  unfolding write_once
  write_once-hindered rx channel c s (r, g, k) h =
      ap
        (λ m. m >>= λ w. done (
          with_fates wire settings p w.1
            (after_write wire settings p rx (channel || rx) c w.2 w.0 w.3)))
        (chosen c.use_replica _ _ r ∙ write_command-hindered s c g k h)

  write_once-refused :
      (rx channel : Bool) (c : RedisCommand) (s : S)
      → IsPlain c
      → c.attempted ≡ settings.max_command_attempts
      → write_once wire settings p rx channel c s
        ≡ done (
          s,
          Fate.answered c (fail RedisErrorKind.unknown "Too many failed write attempts.") ∷ [],
          Next.return (ok tt),
        )
  unfolding write_once
  write_once-refused rx channel c s (r, g, k) h =
      ap
        (λ m. m >>= λ w. done (
          with_fates wire settings p w.1
            (after_write wire settings p rx (channel || rx) c w.2 w.0 w.3)))
        (chosen c.use_replica _ _ r ∙ write_command-refused s c h)

  -- The ways into a round: without backpressure, or after the wait.
  abbrev IsWait : Option Backpressure → Type 0
  IsWait b = (b ≡ none) ⊎ ((ms : ℕ) × b ≡ some (Backpressure.wait ms))

  waited_through :
      (force_pipeline channel : Bool) (c : RedisCommand) (r : Result (Unit {0}) × S)
      → r.0 ≡ ok tt
      → waited wire settings p force_pipeline channel c r
        ≡ with_channel wire settings p force_pipeline channel c r.1
  waited_through force_pipeline channel c (ok u, s) e = refl
  waited_through force_pipeline channel c (err x, s) e = absurd (ground arith)

  round-through :
      (force_pipeline : Bool) (c : RedisCommand) (b : Option Backpressure) (channel : Bool) (s : S)
      → IsWait b
      → (s' : S) × (round wire settings p force_pipeline c b channel s
          ≡ with_channel wire settings p force_pipeline channel c s')
  unfolding round
  round-through force_pipeline c b channel s (inl e) = rw (e) (s, refl)
  round-through force_pipeline c b channel s (inr (ms, e)) =
      rw (e)
        ((wire.wait s ms).1, waited_through force_pipeline channel c (wire.wait s ms) (waits s ms))

  prefixed-IsRefused :
      (m : Outcome (S × List Fate × Result (Unit {0})))
      → IsRefused m
      → IsRefused (m >>= prefixed wire settings p [])
  prefixed-IsRefused m (s', c', e) = (s', c', rw (e) refl)

  write_from-IsRefused :
      (n : ℕ) (force_pipeline : Bool) (c : RedisCommand) (b : Option Backpressure) (channel : Bool)
      (s : S)
      → IsWait b
      → IsPlain c
      → c.attempted + n ≡ settings.max_command_attempts
      → IsRefused (write_from wire settings p (suc n) force_pipeline c b channel s)
  unfolding write_from
  write_from-IsRefused zero force_pipeline c b channel s w plain h =
      let (s', e) = round-through force_pipeline c b channel s w in
      let q = e ∙ write_once-refused _ channel c s' plain (omega arith) in rw (q) (s', c, refl)
  write_from-IsRefused (suc n) force_pipeline c b channel s w plain h =
      let (s', e) = round-through force_pipeline c b channel s w in
      let q = e ∙ write_once-hindered _ channel c s' plain (omega arith) in
      rw (q) (
        prefixed-IsRefused _ (
          write_from-IsRefused n force_pipeline (attempted_times 1 c)
            (some (Backpressure.wait (delay s' (attempted_times 1 c)))) _ _ (inr (_, refl)) plain
            (omega arith)))

  -- Waiting for backpressure counts as an attempt to write. The limit of attempts is neither 0 nor the largest `u32`, the
  -- connection asks each write of a command that does not skip backpressure to wait, however long, and no wait is
  -- interrupted: then a new command of that sort for a primary node, which does not go to all nodes, is refused for too many
  -- failed attempts, though it was not written once.
  pub write_with_backpressure-IsRefused :
      (c : RedisCommand) (force_pipeline : Bool) (s : S)
      → IsPlain c
      → c.attempted ≡ 0
      → IsRefused (
          write_with_backpressure wire settings p
            (suc settings.max_command_attempts)
            c
            force_pipeline
            s)
  unfolding write_with_backpressure
  write_with_backpressure-IsRefused c force_pipeline s plain h =
      write_from-IsRefused settings.max_command_attempts force_pipeline c none false s (inl refl)
        plain (omega arith)
