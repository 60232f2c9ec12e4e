-- ===== src/Router/Transactions/Run.antt =====
-- The functions of src/router/transactions.rs. Each returns the state after it, what others see of it, and how it ends.
use fred_rs.Prelude.{
  ℕ, zero, suc, Bool, true, false, Option, none, some, List, [], ◌∷◌, ◌++◌, leb, if◌then◌else◌,
}
use fred_rs.Error.{RedisErrorKind, RedisError, Result, ok, err}
use fred_rs.Text.{text}
use fred_rs.Machine.{Profile, Outcome, done, exhausted, ◌>>=◌, u32_add}
use fred_rs.Cluster.Types.{Server}
use fred_rs.Cluster.Address.{ClusterErrorKind}
use fred_rs.Command.Request.{RedisCommand}
use fred_rs.Router.Transactions.{
  RouterResponse, TransactionResponse, Link, Event, sent, replied, reconnecting, lost, redirecting,
  Round, over, failed, again, duplicate, exec, discard, update_hash_slot,
}

-- What does not change between the rounds: the arguments of `run`, and the client's configuration.
pub record Transaction : Type 0 where
  pub id : ℕ
  pub abort_on_error : Bool
  pub watched : Option RedisCommand
  pub max_command_attempts : ℕ
  pub is_clustered : Bool

module _ {ℓ κ} {S : Type ℓ} {Frame : Type κ} (link : Link S Frame) where
  abbrev pub Step : Type (ℓ ⊔ κ)
  Step = S × List (Event Frame) × Round

  abbrev pub logged : Event Frame → Step → Step
  logged e (s, log, r) = (s, e ∷ log, r)

  abbrev pub accepted : Bool → Result (RouterResponse Frame) → Result (TransactionResponse Frame)
  accepted abort_on_error (err e) = err e
  accepted abort_on_error (ok RouterResponse.continue) = ok TransactionResponse.continue
  accepted abort_on_error (ok (RouterResponse.ask slot server)) =
      ok (TransactionResponse.redirection ClusterErrorKind.ask slot server)
  accepted abort_on_error (ok (RouterResponse.moved slot server)) =
      ok (TransactionResponse.redirection ClusterErrorKind.moved slot server)
  accepted abort_on_error (ok (RouterResponse.connection_closed e)) =
      ok (TransactionResponse.retry e)
  accepted abort_on_error (ok (RouterResponse.transaction_error e)) =
      if abort_on_error then err e else ok TransactionResponse.continue
  accepted abort_on_error (ok (RouterResponse.transaction_result frame)) =
      ok (TransactionResponse.finished frame)

  abbrev pub received : Bool → Result (Unit {0}) × S → S × Result (TransactionResponse Frame)
  received abort_on_error (err e, s) = (s, ok (TransactionResponse.retry e))
  received abort_on_error (ok u, s) = let r = link.response s in (r.1, accepted abort_on_error r.0)

  unfoldable pub write_command :
      Bool → Server → RedisCommand → S → S × Result (TransactionResponse Frame)
  write_command abort_on_error server c s = received abort_on_error (link.write_once s c server)

  abbrev pub recovered : List RedisCommand → Result (Unit {0}) → Round
  recovered commands (ok u) = again commands
  recovered commands (err e) = failed e

  -- `reconnect_with_policy(inner, router).await?` and the next round.
  abbrev pub reconnected : List RedisCommand → S → Step
  reconnected commands s =
      let r = link.reconnect s in (r.1, reconnecting ∷ [], recovered commands r.0)

  -- `cluster_redirect_with_policy(inner, router, kind, slot, &server).await?` and the next round.
  abbrev pub redirected : ClusterErrorKind → ℕ → Server → List RedisCommand → S → Step
  redirected kind slot server commands s =
      let r = link.redirect s kind slot server in
      (r.1, redirecting kind slot server ∷ [], recovered commands r.0)

  abbrev pub answered : Result Frame → S → Step
  answered result s = (s, replied result ∷ [], over)

  -- Where no connection is found, a cluster is synced first, and its connections are made anew if that fails.
  abbrev pub synced : List RedisCommand → Result (Unit {0}) × S → Step
  synced commands (ok u, s) = (s, [], again commands)
  synced commands (err e, s) = reconnected commands s

  unfoldable pub find_another : Bool → List RedisCommand → S → Step
  find_another is_clustered commands s =
      logged lost
        (if is_clustered then synced commands (link.sync_cluster s) else reconnected commands s)

  module _ (t : Transaction) (attempted : ℕ) (commands : List RedisCommand) where
    -- `send_discard`, whose result is not looked at.
    abbrev pub discarded : Server → (S → Step) → S → Step
    discarded server next s =
        logged (sent server (discard t.id)) (next (write_command true server (discard t.id) s).0)

    abbrev pub retried : RedisError → S → Step
    retried e s =
        if leb t.max_command_attempts attempted then answered (err e) s else reconnected commands s

    -- The answer to EXEC.
    abbrev pub after_exec : Server → Result (TransactionResponse Frame) → S → Step
    after_exec server (ok (TransactionResponse.finished frame)) s = answered (ok frame) s
    after_exec server (ok (TransactionResponse.retry e)) s = discarded server (retried e) s
    after_exec server (ok (TransactionResponse.redirection kind slot dest)) s =
        discarded server
          (answered (
            err (record {
              kind = RedisErrorKind.cluster;
              details = link.redirection_text kind slot dest;
            })))
          s
    after_exec server (ok TransactionResponse.continue) s =
        discarded server
          (answered (err (record { kind = RedisErrorKind.canceled; details = text "Canceled." }))) s
    after_exec server (err e) s = discarded server (answered (err e)) s

    -- The answer to a command. `server` is shadowed in the branch of a redirection: DISCARD goes to the new server.
    abbrev pub after_command : Server → (S → Step) → Result (TransactionResponse Frame) → S → Step
    after_command server next (ok TransactionResponse.continue) s = next s
    after_command server next (ok (TransactionResponse.retry e)) s = discarded server (retried e) s
    after_command server next (ok (TransactionResponse.redirection kind slot server')) s =
        discarded server' (redirected kind slot server' (update_hash_slot slot commands)) s
    after_command server next (ok (TransactionResponse.finished frame)) s = answered (ok frame) s
    after_command server next (err e) s = discarded server (answered (err e)) s

    -- The answer to WATCH.
    abbrev pub after_watch : (S → Step) → Result (TransactionResponse Frame) → S → Step
    after_watch next (ok TransactionResponse.continue) s = next s
    after_watch next (ok (TransactionResponse.retry e)) s = retried e s
    after_watch next (ok (TransactionResponse.redirection kind slot server')) s =
        redirected kind slot server' (update_hash_slot slot commands) s
    after_watch next (ok (TransactionResponse.finished frame)) s = answered (ok frame) s
    after_watch next (err e) s = answered (err e) s

    -- The loop over the commands, and EXEC behind it.
    unfoldable pub send_each : Server → List RedisCommand → S → Step
    unfolding update_hash_slot
    send_each server [] s =
        let w = write_command true server (exec t.id) s in
        logged (sent server (exec t.id)) (after_exec server w.1 w.0)
    send_each server (c ∷ cs) s =
        let w = write_command t.abort_on_error server (duplicate c) s in
        logged (sent server (duplicate c)) (after_command server (send_each server cs) w.1 w.0)

    abbrev pub send_watched : Server → Option RedisCommand → S → Step
    send_watched server none s = send_each server commands s
    send_watched server (some watch) s =
        let w = write_command false server (duplicate watch) s in
        logged (sent server (duplicate watch)) (after_watch (send_each server commands) w.1 w.0)

    abbrev pub start : Option Server → S → Step
    start none s = find_another t.is_clustered commands s
    start (some server) s = send_watched server t.watched s

  -- One round of the outer loop.
  unfoldable pub round : Transaction → ℕ → RedisCommand → List RedisCommand → S → Step
  unfolding find_another send_each
  round t attempted c cs s = start t attempted (c ∷ cs) (link.find_connection s c) s

  abbrev pub Run : Type (ℓ ⊔ κ)
  Run = Outcome (S × List (Event Frame) × Result (Unit {0}))

  abbrev pub logged_all : List (Event Frame) → S × List (Event Frame) × Result (Unit {0}) → Run
  logged_all log (s, rest, r) = done (s, log ++ rest, r)

  -- `run`, with a round for each unit of fuel.
  unfoldable pub run :
      Profile → Frame → Transaction → (fuel attempted : ℕ) → List RedisCommand → S → Run
  unfolding round
  run p null t fuel attempted [] s = done (s, replied (ok null) ∷ [], ok tt)
  run p null t zero attempted (c ∷ cs) s = exhausted
  run p null t (suc fuel) attempted (c ∷ cs) s =
      let (s', log, r) = round t attempted c cs s in
      elim r [
        | over ↦ done (s', log, ok tt)
        | failed e ↦ done (s', log, err e)
        | again commands ↦ do
          attempted' ← u32_add p attempted 1
          rest ← run p null t fuel attempted' commands s'
          logged_all log rest
      ]
