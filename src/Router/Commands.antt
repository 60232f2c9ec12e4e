-- ===== src/Router/Commands.antt =====
-- The loop that writes one command, of src/router/commands.rs, with `write_command` and `write_replica_command` of the router
-- in src/router/mod.rs. What the connections do is a `Wire`.
pub mod Counting
pub mod Ending
pub mod Fates
pub mod Answers
pub mod Waiting
use fred_rs.Prelude.{
  ℕ, zero, suc, Bool, true, false, not, ◌&&◌, ◌||◌, Option, none, some, List, [], ◌∷◌, ◌++◌, leb,
  if◌then◌else◌,
}
use fred_rs.Error.{RedisErrorKind, RedisError, Result, ok, err, fail}
use fred_rs.Text.{text}
use fred_rs.Machine.{Profile, Outcome, done, exhausted, ◌>>=◌}
use fred_rs.Cluster.Types.{Server}
use fred_rs.Command.Kind.{ClusterHash}
use fred_rs.Command.Policy.{is_all_cluster_nodes, closes_connection}
use fred_rs.Command.Request.{
  RedisCommand, should_auto_pipeline, blocks_connection, incr_check_attempted,
}
use fred_rs.Router.Writer.{Written, Backpressure}

-- The result of `Connections::write_command` and `Replicas::write_command`, whose error gives the command back.
pub data Attempt : Type 0 where
  wrote : Written → Attempt
  unwritten : RedisError → RedisCommand → Attempt

-- `RouterResponse`, with the commands that come back. `dropped` is a closed channel, `transaction` either of the two answers
-- within a transaction.
pub data Response : Type 0 where
  dropped continue transaction : Response
  ask moved : (slot : ℕ) (server : Server) → RedisCommand → Response
  connection_closed : RedisError → RedisCommand → Response

pub record Wire {ℓ} (S : Type ℓ) : Type ℓ where
  pub write_command : S → RedisCommand → Attempt × S
  pub write_all_cluster : S → RedisCommand → Result Written × S
  pub write_replica : S → Server → RedisCommand → Attempt × S
  pub find_connection : S → RedisCommand → Option Server
  pub response : S → RedisCommand → Response × S
  pub owns_slot : S → ℕ → Server → Bool
  pub send_asking : S → Server → ℕ → Result (Unit {0}) × S
  pub sync_cluster : S → Result (Unit {0}) × S
  pub reconnect : S → Result (Unit {0}) × S
  pub wait : S → ℕ → Result (Unit {0}) × S
  pub disconnect : S → Server → S
  pub disconnect_all : S → S
  pub disconnect_replicas : S → S
  pub flush : S → S
  pub flush_replicas : S → S
  pub set_blocked : S → Server → S
  pub interrupt_if_queued : S → S

pub record Settings : Type 0 where
  pub max_command_attempts : ℕ
  pub is_pipelined : Bool
  pub is_clustered : Bool
  pub primary_fallback : Bool

-- Where the router leaves a command: its caller is answered, or it waits in the buffer of the router or of the replicas.
pub data Fate : Type 0 where
  answered : RedisCommand → Result (Unit {0}) → Fate
  buffered replica_buffered : RedisCommand → Fate

-- How a round of the loop ends: the loop returns, or it takes the command again, with its backpressure, and whether the
-- command holds a channel to the router.
pub data Next : Type 0 where
  return : Result (Unit {0}) → Next
  again : RedisCommand → Option Backpressure → (has_router_channel : Bool) → Next

abbrev canceled : RedisError
canceled = record { kind = RedisErrorKind.canceled; details = text "Canceled." }

module _ {ℓ} {S : Type ℓ} (wire : Wire S) (settings : Settings) (p : Profile) where
  -- The command as it was written goes along, since its response may give it back.
  abbrev pub Write : Type ℓ
  Write = S × List Fate × RedisCommand × Result Written

  abbrev buffered_if : RedisCommand → Attempt × S → Write
  buffered_if c (Attempt.wrote w, s) = (s, [], c, ok w)
  buffered_if c (Attempt.unwritten e c', s) = (s, buffered c' ∷ [], c, err e)

  abbrev to_all : RedisCommand → Result Written × S → Write
  to_all c (r, s) = (s, [], c, r)

  abbrev goes_to_all : RedisCommand → Bool
  goes_to_all c = is_all_cluster_nodes c.kind || closes_connection c.kind && settings.is_clustered

  abbrev sent_on : S → RedisCommand → Write
  sent_on s c =
      if goes_to_all c
      then to_all c (wire.write_all_cluster s c)
      else buffered_if c (wire.write_command s c)

  -- `c` is the command with its attempts counted where there are any left.
  abbrev checked : (S → RedisCommand → Write) → S → RedisCommand → Result RedisCommand → Write
  checked next s c (err e) = (s, answered c (err e) ∷ [], c, ok Written.ignore)
  checked next s c (ok c') = next s c'

  unfoldable pub write_command : S → RedisCommand → Outcome Write
  unfolding incr_check_attempted
  write_command s c = do
    r ← incr_check_attempted p settings.max_command_attempts c
    done (checked sent_on s c r)

  abbrev on_primary : RedisCommand → RedisCommand
  on_primary c = record c { use_replica = false }

  abbrev fallen_back : RedisCommand → Attempt × S → Outcome Write
  fallen_back c (Attempt.wrote w, s) = done (wire.flush_replicas s, [], c, ok w)
  fallen_back c (Attempt.unwritten e c', s) =
      if settings.primary_fallback
      then write_command s (on_primary c')
      else done (s, replica_buffered c' ∷ [], c, err e)

  abbrev to_replica : Server → S → RedisCommand → Result RedisCommand → Outcome Write
  to_replica primary s c (err e) = done (s, answered c (err e) ∷ [], c, ok Written.ignore)
  to_replica primary s c (ok c') = fallen_back c' (wire.write_replica s primary c')

  abbrev from_primary : Option Server → S → RedisCommand → Outcome Write
  from_primary (some primary) s c = do
    r ← incr_check_attempted p settings.max_command_attempts c
    to_replica primary s c r
  from_primary none s c =
      if settings.primary_fallback
      then write_command s (on_primary c)
      else done (
        s,
        answered c (fail RedisErrorKind.replica "Missing primary node connection.") ∷ [],
        c,
        ok Written.ignore,
      )

  unfoldable pub write_replica_command : S → RedisCommand → Outcome Write
  unfolding write_command incr_check_attempted
  write_replica_command s c =
      if c.use_replica then from_primary (wire.find_connection s c) s c else write_command s c

  abbrev Step : Type ℓ
  Step = S × List Fate × Next

  abbrev redirected : ℕ → RedisCommand → RedisCommand
  redirected slot c = record c { hasher = ClusterHash.custom slot; use_replica = false }

  abbrev Handled : Type ℓ
  Handled = S × List Fate × Result (Option RedisCommand)

  abbrev after_recovery : Option RedisCommand → List Fate → Result (Unit {0}) × S → Handled
  after_recovery c fates (err e, s) = (s, fates, err e)
  after_recovery c fates (ok u, s) = (s, fates, ok c)

  abbrev handled : Response × S → Handled
  handled (Response.dropped, s) = (s, [], ok none)
  handled (Response.continue, s) = (s, [], ok none)
  handled (Response.ask slot server c, s) =
      after_recovery (some (redirected slot c)) [] (wire.send_asking s server slot)
  handled (Response.moved slot server c, s) =
      if wire.owns_slot s slot server
      then (s, [], ok (some (redirected slot c)))
      else after_recovery (some (redirected slot c)) [] (wire.sync_cluster s)
  handled (Response.connection_closed e c, s) =
      if leb settings.max_command_attempts c.attempted
      then after_recovery none (answered c (err e) ∷ []) (wire.reconnect s)
      else after_recovery (some c) [] (wire.reconnect s)
  handled (Response.transaction, s) =
      (s, [], fail RedisErrorKind.unknown "Invalid transaction response.")

  -- The second argument tells whether the loop holds the receiving end of the command's channel.
  unfoldable pub handle_router_response : S → (rx : Bool) → RedisCommand → Handled
  handle_router_response s false c = (s, [], ok none)
  handle_router_response s true c = handled (wire.response s c)

  abbrev ended : Bool → Next
  ended true = return (err canceled)
  ended false = return (ok tt)

  abbrev after_all : Bool → Handled → Step
  after_all closes (s, fates, err e) = (s, fates, return (err e))
  after_all closes (s, fates, ok (some c)) =
      (s, fates ++ answered c (err canceled) ∷ [], return (ok tt))
  after_all closes (s, fates, ok none) = (s, fates, ended closes)

  abbrev after_one : Bool → Handled → Step
  after_one closes (s, fates, err e) = (s, fates, return (err e))
  after_one closes (s, fates, ok (some c)) = (s, fates, again c none false)
  after_one closes (s, fates, ok none) = (s, fates, ended closes)

  abbrev blocked_if : Bool → Server → S → S
  blocked_if true server s = wire.set_blocked s server
  blocked_if false server s = s

  abbrev interrupted_if : Bool → S → S
  interrupted_if true s = wire.interrupt_if_queued s
  interrupted_if false s = s

  abbrev flushed_unless : Bool → S → S
  flushed_unless true s = s
  flushed_unless false s = wire.flush s

  abbrev pub buffered_opt : Option RedisCommand → List Fate
  buffered_opt none = []
  buffered_opt (some c) = buffered c ∷ []

  -- `c` is the command as the loop gave it to the router, `c'` as it was written.
  abbrev after_write : (rx channel : Bool) → (c c' : RedisCommand) → S → Result Written → Step
  after_write rx channel c c' s (ok (Written.backpressure back b)) =
      (s, [], again back (some b) channel)
  after_write rx channel c c' s (ok (Written.disconnect server back e)) =
      (wire.disconnect s server, buffered_opt back, return (ok tt))
  after_write rx channel c c' s (ok (Written.sync back)) =
      (wire.disconnect_all s, buffered back ∷ [], return (ok tt))
  after_write rx channel c c' s (ok Written.ignore) = (s, [], return (ok tt))
  after_write rx channel c c' s (ok Written.sent_all) =
      after_all (closes_connection c.kind) (handle_router_response (wire.flush s) rx c')
  after_write rx channel c c' s (ok (Written.sent server flushed)) =
      after_one (closes_connection c.kind) (
        handle_router_response
          (interrupted_if (blocks_connection c)
            (flushed_unless flushed (blocked_if (blocks_connection c) server s)))
          rx c')
  after_write rx channel c c' s (err e) =
      if c.use_replica
      then (wire.disconnect_replicas s, [], return (ok tt))
      else (s, [], return (err e))

  abbrev with_fates : List Fate → Step → Step
  with_fates fates (s, more, next) = (s, fates ++ more, next)

  unfoldable pub write_once : (rx has_router_channel : Bool) → RedisCommand → S → Outcome Step
  unfolding write_command write_replica_command handle_router_response blocks_connection
  write_once rx has_router_channel c s = do
    w ← if c.use_replica then write_replica_command s c else write_command s c
    done (with_fates w.1 (after_write rx (has_router_channel || rx) c w.2 w.0 w.3))

  abbrev with_channel : Bool → Bool → RedisCommand → S → Outcome Step
  with_channel force_pipeline channel c s =
      write_once (not (should_auto_pipeline settings.is_pipelined c force_pipeline)) channel c s

  abbrev waited : Bool → Bool → RedisCommand → Result (Unit {0}) × S → Outcome Step
  waited force_pipeline channel c (ok u, s) = with_channel force_pipeline channel c s
  waited force_pipeline channel c (err e, s) = done (s, answered c (err e) ∷ [], return (ok tt))

  -- A round, which starts with `Backpressure::wait`.
  unfoldable pub round :
      Bool → RedisCommand → Option Backpressure → (has_router_channel : Bool) → S → Outcome Step
  unfolding write_once should_auto_pipeline
  round force_pipeline c none has_router_channel s =
      with_channel force_pipeline has_router_channel c s
  round force_pipeline c (some (Backpressure.wait ms)) has_router_channel s =
      waited force_pipeline has_router_channel c (wire.wait s ms)
  round force_pipeline c (some Backpressure.block) has_router_channel s =
      if has_router_channel
      then with_channel force_pipeline true c s
      else write_once true false (record c { skip_backpressure = true }) s

  abbrev Run : Type ℓ
  Run = Outcome (S × List Fate × Result (Unit {0}))

  abbrev prefixed : List Fate → S × List Fate × Result (Unit {0}) → Run
  prefixed fates (s, more, r) = done (s, fates ++ more, r)

  -- The loop, with a round for each unit of fuel.
  unfoldable pub write_from :
      (fuel : ℕ) → Bool → RedisCommand → Option Backpressure → Bool → S → Run
  unfolding round
  write_from zero force_pipeline c b channel s = exhausted
  write_from (suc fuel) force_pipeline c b channel s =
      round force_pipeline c b channel s >>= λ (s', fates, next). elim next [
        | return r ↦ done (s', fates, r)
        | again c' b' channel' ↦ write_from fuel force_pipeline c' b' channel' s' >>= prefixed fates
      ]

  unfoldable pub write_with_backpressure :
      (fuel : ℕ) → RedisCommand → (force_pipeline : Bool) → S → Run
  unfolding write_from
  write_with_backpressure fuel c force_pipeline s = write_from fuel force_pipeline c none false s
