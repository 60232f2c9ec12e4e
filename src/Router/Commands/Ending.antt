-- ===== src/Router/Commands/Ending.antt =====
-- About src/router/commands.rs and src/router/mod.rs: the loop that writes a command comes to an end.
use fred_rs.Prelude.{
  ℕ, zero, suc, ◌+◌, ◌≤◌, ◌<◌, ◌≡◌, refl, Bool, true, false, ◌||◌, Option, none, some, List, [],
  ◌++◌, leb, Bool-cases, inl, inr, arith,
}
use fred_rs.Error.{Result, ok, err}
use fred_rs.Machine.{Profile, Outcome, done, ◌>>=◌, u32_max}
use fred_rs.Cluster.Types.{Server}
use fred_rs.Command.Request.{RedisCommand}
use fred_rs.Router.Writer.{Written, Backpressure}
use fred_rs.Router.Commands.{
  Response, Wire, Settings, Fate, Next, handle_router_response, handled, write_once, round,
  write_from, write_with_backpressure, Write, Step, Handled, after_write, after_one, after_all,
  after_recovery, with_fates, waited, prefixed, redirected, ended,
}
use fred_rs.Router.Commands.Counting.{
  IsSameAttempt, IsSameResult, IsSameResponse, IsAdvanced, Advances, either-Advances,
  write_command-Advances, write_replica_command-Advances,
}

module _ {ℓ} {S : Type ℓ} (wire : Wire S) (settings : Settings) (p : Profile)
    (positive : 0 < settings.max_command_attempts) (small : settings.max_command_attempts < u32_max)
    (write_same : (s : S) (c : RedisCommand) → IsSameAttempt c.attempted (wire.write_command s c).0)
    (all_same : (s : S) (c : RedisCommand)
      → IsSameResult c.attempted (wire.write_all_cluster s c).0)
    (replica_same : (s : S) (server : Server) (c : RedisCommand)
      → IsSameAttempt c.attempted (wire.write_replica s server c).0)
    (response_same : (s : S) (c : RedisCommand)
      → IsSameResponse c.attempted (wire.response s c).0) where
  -- A round that starts again has counted one more attempt, within the limit.
  abbrev IsNext : ℕ → Next → Type 0
  IsNext n (Next.return r) = Unit
  IsNext n (Next.again c b channel) =
      (n < c.attempted) × (c.attempted ≤ settings.max_command_attempts)

  abbrev IsGivenBack : ℕ → Result (Option RedisCommand) → Type 0
  IsGivenBack n (err e) = Unit
  IsGivenBack n (ok none) = Unit
  IsGivenBack n (ok (some c)) = c.attempted ≡ n

  after_recovery-same :
      (n : ℕ) (c : Option RedisCommand) (fates : List Fate) (r : Result (Unit {0}) × S)
      → IsGivenBack n (ok c)
      → IsGivenBack n (after_recovery wire settings p c fates r).2
  after_recovery-same n c fates (err e, s) h = tt
  after_recovery-same n c fates (ok u, s) h = h

  handled_same :
      (n : ℕ) (r : Response × S)
      → IsSameResponse n r.0
      → IsGivenBack n (handled wire settings p r).2
  handled_same n (Response.dropped, s) h = tt
  handled_same n (Response.continue, s) h = tt
  handled_same n (Response.transaction, s) h = tt
  handled_same n (Response.ask slot server c, s) h =
      after_recovery-same n (some (redirected wire settings p slot c)) [] _ h
  handled_same n (Response.moved slot server c, s) h =
      elim (Bool-cases (wire.owns_slot s slot server)) [
        | inl q ↦ rw (q) h
        | inr q ↦ rw (q) (
            after_recovery-same n (some (redirected wire settings p slot c)) []
              (wire.sync_cluster s) h)
      ]
  handled_same n (Response.connection_closed e c, s) h =
      elim (Bool-cases (leb settings.max_command_attempts c.attempted)) [
        | inl q ↦ rw (q) (after_recovery-same n none _ (wire.reconnect s) tt)
        | inr q ↦ rw (q) (after_recovery-same n (some c) [] (wire.reconnect s) h)
      ]

  handle_router_response-same :
      (s : S) (rx : Bool) (c : RedisCommand)
      → IsGivenBack c.attempted (handle_router_response wire settings p s rx c).2
  unfolding handle_router_response
  handle_router_response-same s false c = tt
  handle_router_response-same s true c = handled_same c.attempted _ (response_same s c)

  ended-IsNext : (n : ℕ) (closes : Bool) → IsNext n (ended wire settings p closes)
  ended-IsNext n true = tt
  ended-IsNext n false = tt

  after_all-IsNext :
      (n : ℕ) (closes : Bool) (h : Handled wire settings p)
      → IsNext n (after_all wire settings p closes h).2
  after_all-IsNext n closes (s, fates, err e) = tt
  after_all-IsNext n closes (s, fates, ok (some c)) = tt
  after_all-IsNext n closes (s, fates, ok none) = ended-IsNext n closes

  after_one-IsNext :
      (n m : ℕ) (closes : Bool) (h : Handled wire settings p)
      → n < m
      → m ≤ settings.max_command_attempts
      → IsGivenBack m h.2
      → IsNext n (after_one wire settings p closes h).2
  after_one-IsNext n m closes (s, fates, err e) a b g = tt
  after_one-IsNext n m closes (s, fates, ok (some c)) a b g = (omega arith, omega arith)
  after_one-IsNext n m closes (s, fates, ok none) a b g = ended-IsNext n closes

  after_write-IsNext :
      (n : ℕ) (rx channel : Bool) (c c' : RedisCommand) (s : S) (r : Result Written)
      → IsAdvanced settings n c' r
      → IsNext n (after_write wire settings p rx channel c c' s r).2
  after_write-IsNext n rx channel c c' s (ok (Written.backpressure back b)) (h, k, e) =
      (omega arith, omega arith)
  after_write-IsNext n rx channel c c' s (ok (Written.disconnect server back e)) h = tt
  after_write-IsNext n rx channel c c' s (ok (Written.sync back)) h = tt
  after_write-IsNext n rx channel c c' s (ok Written.ignore) h = tt
  after_write-IsNext n rx channel c c' s (ok Written.sent_all) h = after_all-IsNext n _ _
  after_write-IsNext n rx channel c c' s (ok (Written.sent server flushed)) (h, k, e) =
      after_one-IsNext n c'.attempted _ _ h k (handle_router_response-same _ rx c')
  after_write-IsNext n rx channel c c' s (err e) h = elim (Bool-cases c.use_replica) [
    | inl q ↦ rw (q) tt
    | inr q ↦ rw (q) tt
  ]

  abbrev Steps : ℕ → Outcome (Step wire settings p) → Type ℓ
  Steps n m = (step : Step wire settings p) × (m ≡ done step) × IsNext n step.2

  written_next :
      (rx channel : Bool) (c : RedisCommand) (m : Outcome (Write wire settings p))
      → Advances wire settings p c.attempted m
      → Steps c.attempted (
          m >>= λ w.
          done
            (with_fates wire settings p w.1 (after_write wire settings p rx channel c w.2 w.0 w.3)))
  written_next rx channel c m (w, e, a) =
      rw (e) (_, refl, after_write-IsNext c.attempted rx channel c w.2 w.0 w.3 a)

  write_once-next :
      (rx channel : Bool) (c : RedisCommand) (s : S)
      → c.attempted ≤ settings.max_command_attempts
      → Steps c.attempted (write_once wire settings p rx channel c s)
  unfolding write_once
  write_once-next rx channel c s h = written_next rx (channel || rx) c _ (
      either-Advances wire settings p c.attempted c.use_replica
        (write_replica_command-Advances wire settings p positive small write_same all_same
          replica_same s c h)
        (write_command-Advances wire settings p positive small write_same all_same replica_same s c
          h))

  waited_next :
      (force_pipeline channel : Bool) (c : RedisCommand) (r : Result (Unit {0}) × S)
      → c.attempted ≤ settings.max_command_attempts
      → Steps c.attempted (waited wire settings p force_pipeline channel c r)
  waited_next force_pipeline channel c (ok u, s) h = write_once-next _ channel c s h
  waited_next force_pipeline channel c (err e, s) h = (_, refl, tt)

  round-next :
      (force_pipeline : Bool) (c : RedisCommand) (b : Option Backpressure) (channel : Bool) (s : S)
      → c.attempted ≤ settings.max_command_attempts
      → Steps c.attempted (round wire settings p force_pipeline c b channel s)
  unfolding round
  round-next force_pipeline c none channel s h = write_once-next _ channel c s h
  round-next force_pipeline c (some (Backpressure.wait ms)) channel s h =
      waited_next force_pipeline channel c (wire.wait s ms) h
  round-next force_pipeline c (some Backpressure.block) true s h = write_once-next _ true c s h
  round-next force_pipeline c (some Backpressure.block) false s h =
      write_once-next true false (record c { skip_backpressure = true }) s h

  abbrev Ends : Outcome (S × List Fate × Result (Unit {0})) → Type ℓ
  Ends m = (r : S × List Fate × Result (Unit {0})) × (m ≡ done r)

  prefixed-Ends :
      (fates : List Fate) (m : Outcome (S × List Fate × Result (Unit {0})))
      → Ends m
      → Ends (m >>= prefixed wire settings p fates)
  prefixed-Ends fates m ((s, more, r), e) = ((s, fates ++ more, r), rw (e) refl)

  -- The rest of the loop behind a round.
  next-Ends :
      (n : ℕ)
      (loop : RedisCommand
        → Option Backpressure
        → Bool
        → S
        → Outcome (S × List Fate × Result (Unit {0})))
      → ((c : RedisCommand) (b : Option Backpressure) (channel : Bool) (s : S)
          → n < c.attempted
          → c.attempted ≤ settings.max_command_attempts
          → Ends (loop c b channel s))
      → (m : Outcome (Step wire settings p)) → Steps n m
      → Ends (
          m >>= λ (s', fates, next). elim next [
            | Next.return r ↦ done (s', fates, r)
            | Next.again c' b' channel' ↦ loop c' b' channel' s' >>= prefixed wire settings p fates
          ])
  next-Ends n loop h m ((s, fates, Next.return r), e, k) = ((s, fates, r), rw (e) refl)
  next-Ends n loop h m ((s, fates, Next.again c b channel), e, k) =
      rw (e) (prefixed-Ends fates (loop c b channel s) (h c b channel s k.0 k.1))

  write_from-Ends :
      (fuel : ℕ) (force_pipeline : Bool) (c : RedisCommand) (b : Option Backpressure)
      (channel : Bool) (s : S)
      → c.attempted ≤ settings.max_command_attempts
      → settings.max_command_attempts < c.attempted + fuel
      → Ends (write_from wire settings p fuel force_pipeline c b channel s)
  unfolding write_from
  write_from-Ends zero force_pipeline c b channel s h k = absurd (omega arith)
  write_from-Ends (suc fuel) force_pipeline c b channel s h k =
      next-Ends c.attempted (λ c'. write_from wire settings p fuel force_pipeline c')
        (λ c' b' channel' s' l m.
          write_from-Ends fuel force_pipeline c' b' channel' s' m (omega arith))
        _ (round-next force_pipeline c b channel s h)

  -- With a limit of attempts that is neither 0 nor the largest `u32`, the loop that writes a command returns after at most
  -- one round more than there are attempts left, whatever the connections do, and nothing panics. The command has not
  -- passed the limit before, and what gives it back leaves its count as it is.
  pub write_with_backpressure-ends :
      (c : RedisCommand) (force_pipeline : Bool) (s : S)
      → c.attempted ≤ settings.max_command_attempts
      → (r : S × List Fate × Result (Unit {0})) × (write_with_backpressure wire settings p
            (suc settings.max_command_attempts)
            c
            force_pipeline
            s
          ≡ done r)
  unfolding write_with_backpressure
  write_with_backpressure-ends c force_pipeline s h =
      write_from-Ends (suc settings.max_command_attempts) force_pipeline c none false s h
        (omega arith)
