-- ===== src/Router/Commands/Answers.antt =====
-- About src/router/commands.rs and src/router/mod.rs: what becomes of a command that the loop is given.
use mathlib.Core.List.{append-nil}
use fred_rs.Prelude.{
  ℕ, zero, suc, ◌≡◌, refl, Bool, true, false, ◌||◌, Option, none, some, List, [], ◌∷◌, leb,
  Bool-cases, inl, inr, subst,
}
use fred_rs.Error.{Result, ok, err}
use fred_rs.Machine.{Profile, Outcome, done, panicked, exhausted, ◌>>=◌}
use fred_rs.Command.Request.{RedisCommand}
use fred_rs.Router.Writer.{Written, Backpressure}
use fred_rs.Router.Commands.{
  Response, Wire, Settings, Fate, Next, handle_router_response, handled, write_once, round,
  write_from, write_with_backpressure, Step, Handled, after_write, after_one, after_all,
  after_recovery, with_fates, waited, prefixed, redirected, ended, buffered_opt,
}
use fred_rs.Router.Commands.Fates.{
  Always, Always->>=, AtMostOne, IsWriteFate, IsFair, either-Always, write_command-IsFair,
  write_replica_command-IsFair,
}

module _ {ℓ} {S : Type ℓ} (wire : Wire S) (settings : Settings) (p : Profile) where
  abbrev IsFairStep : Step wire settings p → Type 0
  IsFairStep (s, fates, Next.return r) = AtMostOne fates
  IsFairStep (s, fates, Next.again c b channel) = fates ≡ []

  -- A command that is given back has been left nowhere.
  abbrev IsFairHandled : Handled wire settings p → Type 0
  IsFairHandled (s, fates, err e) = AtMostOne fates
  IsFairHandled (s, fates, ok none) = AtMostOne fates
  IsFairHandled (s, fates, ok (some c)) = fates ≡ []

  after_recovery-given_back :
      (c : RedisCommand) (r : Result (Unit {0}) × S)
      → IsFairHandled (after_recovery wire settings p (some c) [] r)
  after_recovery-given_back c (err e, s) = tt
  after_recovery-given_back c (ok u, s) = refl

  after_recovery-answered :
      (fate : Fate) (r : Result (Unit {0}) × S)
      → IsFairHandled (after_recovery wire settings p none (fate ∷ []) r)
  after_recovery-answered fate (err e, s) = tt
  after_recovery-answered fate (ok u, s) = tt

  handled_fair : (r : Response × S) → IsFairHandled (handled wire settings p r)
  handled_fair (Response.dropped, s) = tt
  handled_fair (Response.continue, s) = tt
  handled_fair (Response.transaction, s) = tt
  handled_fair (Response.ask slot server c, s) = after_recovery-given_back _ _
  handled_fair (Response.moved slot server c, s) =
      elim (Bool-cases (wire.owns_slot s slot server)) [
        | inl q ↦ rw (q) refl
        | inr q ↦
            rw (q)
              (after_recovery-given_back (redirected wire settings p slot c) (wire.sync_cluster s))
      ]
  handled_fair (Response.connection_closed e c, s) =
      elim (Bool-cases (leb settings.max_command_attempts c.attempted)) [
        | inl q ↦ rw (q) (after_recovery-answered (Fate.answered c (err e)) (wire.reconnect s))
        | inr q ↦ rw (q) (after_recovery-given_back c (wire.reconnect s))
      ]

  handle_router_response-fair :
      (s : S) (rx : Bool) (c : RedisCommand)
      → IsFairHandled (handle_router_response wire settings p s rx c)
  unfolding handle_router_response
  handle_router_response-fair s false c = tt
  handle_router_response-fair s true c = handled_fair (wire.response s c)

  ended_fair :
      (s : S) (closes : Bool) (fates : List Fate)
      → AtMostOne fates
      → IsFairStep (s, fates, ended wire settings p closes)
  ended_fair s true fates h = h
  ended_fair s false fates h = h

  after_all-fair :
      (closes : Bool) (h : Handled wire settings p)
      → IsFairHandled h
      → IsFairStep (after_all wire settings p closes h)
  after_all-fair closes (s, fates, err e) h = h
  after_all-fair closes (s, fates, ok (some c)) h = rw (h) tt
  after_all-fair closes (s, fates, ok none) h = ended_fair s closes fates h

  after_one-fair :
      (closes : Bool) (h : Handled wire settings p)
      → IsFairHandled h
      → IsFairStep (after_one wire settings p closes h)
  after_one-fair closes (s, fates, err e) h = h
  after_one-fair closes (s, fates, ok (some c)) h = h
  after_one-fair closes (s, fates, ok none) h = ended_fair s closes fates h

  buffered_opt-fair : (c : Option RedisCommand) → AtMostOne (buffered_opt wire settings p c)
  buffered_opt-fair none = tt
  buffered_opt-fair (some c) = tt

  prefixed_fair :
      (fates : List Fate) (step : Step wire settings p)
      → fates ≡ []
      → IsFairStep step
      → IsFairStep (with_fates wire settings p fates step)
  prefixed_fair fates step e h = rw (e) h

  after_write-fair :
      (rx channel : Bool) (c c' : RedisCommand) (s : S) (fates : List Fate) (r : Result Written)
      → IsWriteFate wire settings p fates r
      → IsFairStep
          (with_fates wire settings p fates (after_write wire settings p rx channel c c' s r))
  after_write-fair rx channel c c' s fates (ok (Written.backpressure back b)) h = rw (h) refl
  after_write-fair rx channel c c' s fates (ok (Written.disconnect server back e)) h =
      rw (h) (buffered_opt-fair back)
  after_write-fair rx channel c c' s fates (ok (Written.sync back)) h = rw (h) tt
  after_write-fair rx channel c c' s fates (ok Written.ignore) h = rw (append-nil fates) h
  after_write-fair rx channel c c' s fates (ok Written.sent_all) h =
      prefixed_fair fates (after_write wire settings p rx channel c c' s (ok Written.sent_all)) h
        (after_all-fair _ _ (handle_router_response-fair _ rx c'))
  after_write-fair rx channel c c' s fates (ok (Written.sent server flushed)) h =
      prefixed_fair fates
        (after_write wire settings p rx channel c c' s (ok (Written.sent server flushed))) h
        (after_one-fair _ _ (handle_router_response-fair _ rx c'))
  after_write-fair rx channel c c' s fates (err e) h = elim (Bool-cases c.use_replica) [
    | inl q ↦ rw (q, append-nil fates) h
    | inr q ↦ rw (q, append-nil fates) h
  ]

  write_once-fair :
      (rx channel : Bool) (c : RedisCommand) (s : S)
      → Always IsFairStep (write_once wire settings p rx channel c s)
  unfolding write_once
  write_once-fair rx channel c s =
      Always->>= (IsFair wire settings p) IsFairStep _ _
        (either-Always wire settings p c.use_replica _ _
          (write_replica_command-IsFair wire settings p s c)
          (write_command-IsFair wire settings p s c))
        (λ w h. after_write-fair rx (channel || rx) c w.2 w.0 w.1 w.3 h)

  waited_fair :
      (force_pipeline channel : Bool) (c : RedisCommand) (r : Result (Unit {0}) × S)
      → Always IsFairStep (waited wire settings p force_pipeline channel c r)
  waited_fair force_pipeline channel c (ok u, s) = write_once-fair _ channel c s
  waited_fair force_pipeline channel c (err e, s) = tt

  round-fair :
      (force_pipeline : Bool) (c : RedisCommand) (b : Option Backpressure) (channel : Bool) (s : S)
      → Always IsFairStep (round wire settings p force_pipeline c b channel s)
  unfolding round
  round-fair force_pipeline c none channel s = write_once-fair _ channel c s
  round-fair force_pipeline c (some (Backpressure.wait ms)) channel s =
      waited_fair force_pipeline channel c (wire.wait s ms)
  round-fair force_pipeline c (some Backpressure.block) true s = write_once-fair _ true c s
  round-fair force_pipeline c (some Backpressure.block) false s =
      write_once-fair true false (record c { skip_backpressure = true }) s

  abbrev IsFairEnd : S × List Fate × Result (Unit {0}) → Type 0
  IsFairEnd (s, fates, r) = AtMostOne fates

  prefixed_end :
      (fates : List Fate) (m : Outcome (S × List Fate × Result (Unit {0})))
      → fates ≡ []
      → Always IsFairEnd m
      → Always IsFairEnd (m >>= prefixed wire settings p fates)
  prefixed_end fates (done (s, more, r)) e h = rw (e) h
  prefixed_end fates panicked e h = tt
  prefixed_end fates exhausted e h = tt

  next_fair :
      (loop : RedisCommand
        → Option Backpressure
        → Bool
        → S
        → Outcome (S × List Fate × Result (Unit {0})))
      → ((c : RedisCommand) (b : Option Backpressure) (channel : Bool) (s : S)
          → Always IsFairEnd (loop c b channel s))
      → (step : Step wire settings p) → IsFairStep step
      → Always IsFairEnd (elim step.2 [
        | Next.return r ↦ done (step.0, step.1, r)
        | Next.again c' b' channel' ↦ loop c' b' channel' step.0 >>= prefixed wire settings p step.1
      ])
  next_fair loop h (s, fates, Next.return r) k = k
  next_fair loop h (s, fates, Next.again c b channel) k = prefixed_end fates _ k (h c b channel s)

  write_from-fair :
      (fuel : ℕ) (force_pipeline : Bool) (c : RedisCommand) (b : Option Backpressure)
      (channel : Bool) (s : S)
      → Always IsFairEnd (write_from wire settings p fuel force_pipeline c b channel s)
  unfolding write_from
  write_from-fair zero force_pipeline c b channel s = tt
  write_from-fair (suc fuel) force_pipeline c b channel s =
      Always->>= IsFairStep IsFairEnd _ _ (round-fair force_pipeline c b channel s) (λ step k.
        next_fair (λ c'. write_from wire settings p fuel force_pipeline c')
          (λ c'. write_from-fair fuel force_pipeline c') step k)

  -- However many rounds the loop takes, when it returns the router has done at most one of these, and once: answered the
  -- caller of the command, put the command into its buffer, or put it into the buffer of the replicas.
  pub write_with_backpressure-AtMostOne :
      (fuel : ℕ) (c : RedisCommand) (force_pipeline : Bool) (s s' : S) (fates : List Fate)
      (r : Result (Unit {0}))
      → write_with_backpressure wire settings p fuel c force_pipeline s ≡ done (s', fates, r)
      → AtMostOne fates
  unfolding write_with_backpressure
  write_with_backpressure-AtMostOne fuel c force_pipeline s s' fates r e =
      subst (Always IsFairEnd) e (write_from-fair fuel force_pipeline c none false s)
