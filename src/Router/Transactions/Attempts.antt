-- ===== src/Router/Transactions/Attempts.antt =====
-- About src/router/transactions.rs: what one round of a transaction writes to the connections, and in which order.
use fred_rs.Prelude.{ℕ, Option, none, some, List, [], ◌∷◌, leb, Bool-cases, ◌≡◌, inl, inr}
use fred_rs.Error.{RedisError, Result, ok, err}
use fred_rs.Cluster.Types.{Server}
use fred_rs.Cluster.Address.{ClusterErrorKind}
use fred_rs.Command.Request.{RedisCommand}
use fred_rs.Router.Transactions.{
  TransactionResponse, Link, Event, sent, replied, reconnecting, redirecting, duplicate, exec,
  discard,
}
use fred_rs.Router.Transactions.Run.{
  Transaction, Step, after_exec, after_command, after_watch, retried, send_each, send_watched,
  round,
}

-- How a round can close: with an answer to the caller, new connections, or a redirection.
pub data IsClose {κ} {Frame : Type κ} : List (Event Frame) → Type κ where
  answer : (r : Result Frame) → IsClose (replied r ∷ [])
  reconnection : IsClose (reconnecting ∷ [])
  redirection :
      (kind : ClusterErrorKind) (slot : ℕ) (server : Server)
      → IsClose (redirecting kind slot server ∷ [])

-- What can follow where the commands have not all been written: DISCARD goes to the server of the round, except where
-- the transaction is redirected, and then it goes to the server that it is redirected to.
pub data IsStop {κ} {Frame : Type κ} (id : ℕ) (server : Server) : List (Event Frame) → Type κ where
  closed : {log : List (Event Frame)} → IsClose log → IsStop id server log
  discarded :
      {log : List (Event Frame)} → IsClose log → IsStop id server (sent server (discard id) ∷ log)
  misdirected :
      (kind : ClusterErrorKind) (slot : ℕ) (server' : Server)
      → IsStop id server (sent server' (discard id) ∷ redirecting kind slot server' ∷ [])

-- The commands that are left are written in order to one server, with EXEC behind the last of them, or the writing stops
-- after one of them.
pub data IsWriting {κ} {Frame : Type κ} (id : ℕ) (server : Server)
    : List RedisCommand → List (Event Frame) → Type κ where
  executed : (r : Result Frame) → IsWriting id server [] (sent server (exec id) ∷ replied r ∷ [])
  refused :
      {log : List (Event Frame)}
      → IsClose log
      → IsWriting id server [] (sent server (exec id) ∷ sent server (discard id) ∷ log)
  written :
      {c : RedisCommand} {cs : List RedisCommand} {log : List (Event Frame)}
      → IsWriting id server cs log
      → IsWriting id server (c ∷ cs) (sent server (duplicate c) ∷ log)
  stopped :
      {c : RedisCommand} {cs : List RedisCommand} {log : List (Event Frame)}
      → IsStop id server log
      → IsWriting id server (c ∷ cs) (sent server (duplicate c) ∷ log)

-- The same with WATCH in front, after which the round can close too.
pub data IsAttempt {κ} {Frame : Type κ} (id : ℕ) (server : Server) (cs : List RedisCommand)
    : Option RedisCommand → List (Event Frame) → Type κ where
  plain : {log : List (Event Frame)} → IsWriting id server cs log → IsAttempt id server cs none log
  watched :
      {watch : RedisCommand} {log : List (Event Frame)}
      → IsWriting id server cs log
      → IsAttempt id server cs (some watch) (sent server (duplicate watch) ∷ log)
  unwatched :
      {watch : RedisCommand} {log : List (Event Frame)}
      → IsClose log
      → IsAttempt id server cs (some watch) (sent server (duplicate watch) ∷ log)

module _ {ℓ κ} {S : Type ℓ} {Frame : Type κ} (link : Link S Frame) where
  module _ (t : Transaction) (attempted : ℕ) (commands : List RedisCommand) where
    retried_closes : (e : RedisError) (s : S) → IsClose (retried link t attempted commands e s).1
    retried_closes e s = elim (Bool-cases (leb t.max_command_attempts attempted)) [
      | inl q ↦ rw (q) (answer (err e))
      | inr q ↦ rw (q) reconnection
    ]

    after_exec-IsWriting :
        (server : Server) (r : _) (s : S)
        → IsWriting t.id server []
            (sent server (exec t.id) ∷ (after_exec link t attempted commands server r s).1)
    after_exec-IsWriting server (ok (TransactionResponse.finished frame)) s = executed (ok frame)
    after_exec-IsWriting server (ok (TransactionResponse.retry e)) s = refused (retried_closes e _)
    after_exec-IsWriting server (ok (TransactionResponse.redirection kind slot dest)) s =
        refused (answer _)
    after_exec-IsWriting server (ok TransactionResponse.continue) s = refused (answer _)
    after_exec-IsWriting server (err e) s = refused (answer _)

    after_command-IsWriting :
        (server : Server) (c : RedisCommand) (cs : List RedisCommand) (next : S → Step link)
        → ((s : S) → IsWriting t.id server cs (next s).1)
        → (r : _) (s : S)
        → IsWriting t.id server (c ∷ cs) (
            sent server (duplicate c) ∷ (after_command link t attempted commands server next r s).1)
    after_command-IsWriting server c cs next h (ok TransactionResponse.continue) s = written (h s)
    after_command-IsWriting server c cs next h (ok (TransactionResponse.retry e)) s =
        stopped (discarded (retried_closes e _))
    after_command-IsWriting server c cs next h
          (ok (TransactionResponse.redirection kind slot server')) s =
        stopped (misdirected kind slot server')
    after_command-IsWriting server c cs next h (ok (TransactionResponse.finished frame)) s =
        stopped (closed (answer _))
    after_command-IsWriting server c cs next h (err e) s = stopped (discarded (answer _))

    send_each-IsWriting :
        (server : Server) (cs : List RedisCommand) (s : S)
        → IsWriting t.id server cs (send_each link t attempted commands server cs s).1
    unfolding send_each
    send_each-IsWriting server [] s = after_exec-IsWriting server _ _
    send_each-IsWriting server (c ∷ cs) s =
        after_command-IsWriting server c cs _ (λ s. send_each-IsWriting server cs s) _ _

    after_watch-IsAttempt :
        (server : Server) (watch : RedisCommand) (r : _) (s : S)
        → IsAttempt t.id server commands (some watch) (
            sent server (duplicate watch)
            ∷ (after_watch link t attempted commands
                (send_each link t attempted commands server commands)
                r
                s).1)
    after_watch-IsAttempt server watch (ok TransactionResponse.continue) s =
        watched (send_each-IsWriting server commands s)
    after_watch-IsAttempt server watch (ok (TransactionResponse.retry e)) s =
        unwatched (retried_closes e s)
    after_watch-IsAttempt server watch (ok (TransactionResponse.redirection kind slot server')) s =
        unwatched (redirection kind slot server')
    after_watch-IsAttempt server watch (ok (TransactionResponse.finished frame)) s =
        unwatched (answer _)
    after_watch-IsAttempt server watch (err e) s = unwatched (answer _)

    send_watched-IsAttempt :
        (server : Server) (watched : Option RedisCommand) (s : S)
        → IsAttempt t.id server commands watched
            (send_watched link t attempted commands server watched s).1
    send_watched-IsAttempt server none s = plain (send_each-IsWriting server commands s)
    send_watched-IsAttempt server (some watch) s = after_watch-IsAttempt server watch _ _

  -- A round that finds a connection sends the commands of the transaction to that one server:
  -- WATCH first where there is one, then the commands in order, and EXEC only behind the last of
  -- them. It closes with an answer, new connections or a redirection, and DISCARD stands in front
  -- of that as `IsStop` and `IsWriting` say.
  pub round-IsAttempt :
      (t : Transaction) (attempted : ℕ) (c : RedisCommand) (cs : List RedisCommand) (s : S)
      (server : Server)
      → link.find_connection s c ≡ some server
      → IsAttempt t.id server (c ∷ cs) t.watched (round link t attempted c cs s).1
  unfolding round
  round-IsAttempt t attempted c cs s server e =
      rw (e) (send_watched-IsAttempt t attempted (c ∷ cs) server t.watched s)
