-- ===== src/Router/Transactions/Answers.antt =====
-- About src/router/transactions.rs: how often a transaction answers its caller.
use fred_rs.Prelude.{
  ℕ, zero, suc, Bool, true, false, Option, none, some, List, [], ◌∷◌, ◌++◌, leb, Bool-cases, ◌≡◌,
  refl, ◌+◌, subst, arith, inl, inr,
}
use fred_rs.Error.{RedisError, Result, ok, err}
use fred_rs.Machine.{Profile, Outcome, done, exhausted, panicked, ◌>>=◌, u32_add}
use fred_rs.Cluster.Types.{Server}
use fred_rs.Command.Request.{RedisCommand}
use fred_rs.Router.Transactions.{
  TransactionResponse, Link, Event, sent, replied, reconnecting, lost, redirecting, Round, over,
  failed, again,
}
use fred_rs.Router.Transactions.Run.{
  Transaction, Step, find_another, after_exec, after_command, after_watch, retried, send_each,
  send_watched, start, round, Run, run, reconnected, redirected, synced, recovered, logged_all,
}

-- The number of answers that the caller has got.
unfoldable pub replies {κ} : {Frame : Type κ} → List (Event Frame) → ℕ
replies [] = 0
replies (replied r ∷ log) = suc (replies log)
replies (sent server c ∷ log) = replies log
replies (reconnecting ∷ log) = replies log
replies (lost ∷ log) = replies log
replies (redirecting kind slot server ∷ log) = replies log

unfoldable due : Round → ℕ
due over = 1
due (failed e) = 0
due (again commands) = 0

-- A transaction that ends without an error of the router answers once, one that ends with such an error does not.
unfoldable pub owed : Result (Unit {0}) → ℕ
owed (ok u) = 1
owed (err e) = 0

module _ {ℓ κ} {S : Type ℓ} {Frame : Type κ} (link : Link S Frame) where
  abbrev IsAnswered : Step link → Type 0
  IsAnswered (s, log, r) = replies log ≡ due r

  replies-++ : (log rest : List (Event Frame)) → replies (log ++ rest) ≡ replies log + replies rest
  unfolding replies
  replies-++ [] rest = omega arith
  replies-++ (e ∷ log) rest = ground (arith, replies-++ log rest)

  recovered-due :
      (commands : List RedisCommand) (r : Result (Unit {0})) → 0 ≡ due (recovered link commands r)
  unfolding due
  recovered-due commands (ok u) = refl
  recovered-due commands (err e) = refl

  reconnected_answers :
      (commands : List RedisCommand) (s : S) → IsAnswered (reconnected link commands s)
  unfolding replies
  reconnected_answers commands s = recovered-due commands (link.reconnect s).0

  redirected_answers :
      (kind : _) (slot : ℕ) (server : Server) (commands : List RedisCommand) (s : S)
      → IsAnswered (redirected link kind slot server commands s)
  unfolding replies
  redirected_answers kind slot server commands s =
      recovered-due commands (link.redirect s kind slot server).0

  synced_answers :
      (commands : List RedisCommand) (r : Result (Unit {0}) × S)
      → IsAnswered (synced link commands r)
  unfolding replies due
  synced_answers commands (ok u, s) = refl
  synced_answers commands (err e, s) = reconnected_answers commands s

  find_another-answers :
      (b : Bool) (commands : List RedisCommand) (s : S)
      → IsAnswered (find_another link b commands s)
  unfolding find_another replies
  find_another-answers true commands s = synced_answers commands (link.sync_cluster s)
  find_another-answers false commands s = reconnected_answers commands s

  module _ (t : Transaction) (attempted : ℕ) (commands : List RedisCommand) where
    retried_answers : (e : RedisError) (s : S) → IsAnswered (retried link t attempted commands e s)
    unfolding replies due
    retried_answers e s = elim (Bool-cases (leb t.max_command_attempts attempted)) [
      | inl q ↦ rw (q) refl
      | inr q ↦ rw (q) (reconnected_answers commands s)
    ]

    after_exec-answers :
        (server : Server) (r : _) (s : S)
        → IsAnswered (after_exec link t attempted commands server r s)
    unfolding replies due
    after_exec-answers server (ok (TransactionResponse.finished frame)) s = refl
    after_exec-answers server (ok (TransactionResponse.retry e)) s = retried_answers e _
    after_exec-answers server (ok (TransactionResponse.redirection kind slot dest)) s = refl
    after_exec-answers server (ok TransactionResponse.continue) s = refl
    after_exec-answers server (err e) s = refl

    after_command-answers :
        (server : Server) (next : S → Step link)
        → ((s : S) → IsAnswered (next s))
        → (r : _) (s : S) → IsAnswered (after_command link t attempted commands server next r s)
    unfolding replies due
    after_command-answers server next h (ok TransactionResponse.continue) s = h s
    after_command-answers server next h (ok (TransactionResponse.retry e)) s = retried_answers e _
    after_command-answers server next h (ok (TransactionResponse.redirection kind slot server')) s =
        redirected_answers kind slot server' _ _
    after_command-answers server next h (ok (TransactionResponse.finished frame)) s = refl
    after_command-answers server next h (err e) s = refl

    after_watch-answers :
        (next : S → Step link)
        → ((s : S) → IsAnswered (next s))
        → (r : _) (s : S) → IsAnswered (after_watch link t attempted commands next r s)
    unfolding replies due
    after_watch-answers next h (ok TransactionResponse.continue) s = h s
    after_watch-answers next h (ok (TransactionResponse.retry e)) s = retried_answers e _
    after_watch-answers next h (ok (TransactionResponse.redirection kind slot server')) s =
        redirected_answers kind slot server' _ _
    after_watch-answers next h (ok (TransactionResponse.finished frame)) s = refl
    after_watch-answers next h (err e) s = refl

    send_each-answers :
        (server : Server) (cs : List RedisCommand) (s : S)
        → IsAnswered (send_each link t attempted commands server cs s)
    unfolding send_each replies
    send_each-answers server [] s = after_exec-answers server _ _
    send_each-answers server (c ∷ cs) s =
        after_command-answers server _ (λ s. send_each-answers server cs s) _ _

    start_answers :
        (found : Option Server) (s : S) → IsAnswered (start link t attempted commands found s)
    unfolding replies
    start_answers none s = find_another-answers t.is_clustered commands s
    start_answers (some server) s = watched_answers t.watched
      where
        watched_answers :
            (w : Option RedisCommand)
            → IsAnswered (send_watched link t attempted commands server w s)
        watched_answers none = send_each-answers server commands s
        watched_answers (some watch) =
            after_watch-answers _ (λ s. send_each-answers server commands s) _ _

  round-answers :
      (t : Transaction) (attempted : ℕ) (c : RedisCommand) (cs : List RedisCommand) (s : S)
      → IsAnswered (round link t attempted c cs s)
  unfolding round
  round-answers t attempted c cs s = start_answers t attempted (c ∷ cs) (link.find_connection s c) s

  -- The same of a run.
  abbrev IsRight : Run link → Type 0
  IsRight (done (s, log, r)) = replies log ≡ owed r
  IsRight panicked = Unit
  IsRight exhausted = Unit

  IsRight->>= :
      {A : Type 0} (m : Outcome A) (f : A → Run link)
      → ((a : A) → IsRight (f a))
      → IsRight (m >>= f)
  IsRight->>= (done a) f h = h a
  IsRight->>= panicked f h = tt
  IsRight->>= exhausted f h = tt

  logged_all-IsRight :
      (log : List (Event Frame))
      → replies log ≡ 0
      → (m : Run link) → IsRight m
      → IsRight (m >>= logged_all link log)
  logged_all-IsRight log e (done (s, rest, r)) h = ground (arith, replies-++ log rest)
  logged_all-IsRight log e panicked h = tt
  logged_all-IsRight log e exhausted h = tt

  round_end-IsRight :
      (p : Profile) (attempted : ℕ) (next : ℕ → List RedisCommand → S → Run link)
      → ((n : ℕ) (commands : List RedisCommand) (s : S) → IsRight (next n commands s))
      → (step : Step link) → IsAnswered step
      → IsRight (elim step.2 [
        | over ↦ done (step.0, step.1, ok tt)
        | failed e ↦ done (step.0, step.1, err e)
        | again commands ↦ do
          attempted' ← u32_add p attempted 1
          rest ← next attempted' commands step.0
          logged_all link step.1 rest
      ])
  unfolding due owed
  round_end-IsRight p attempted next h (s, log, over) e = e
  round_end-IsRight p attempted next h (s, log, failed _) e = e
  round_end-IsRight p attempted next h (s, log, again commands) e =
      IsRight->>= (u32_add p attempted 1) _ (λ n. logged_all-IsRight log e _ (h n commands s))

  run-IsRight :
      (p : Profile) (null : Frame) (t : Transaction) (fuel attempted : ℕ)
      (commands : List RedisCommand) (s : S)
      → IsRight (run link p null t fuel attempted commands s)
  unfolding run replies owed
  run-IsRight p null t fuel attempted [] s = refl
  run-IsRight p null t zero attempted (c ∷ cs) s = tt
  run-IsRight p null t (suc fuel) attempted (c ∷ cs) s =
      round_end-IsRight p attempted (λ n. run link p null t fuel n)
        (λ n. run-IsRight p null t fuel n) _ (round-answers t attempted c cs s)

  -- Whenever a transaction returns, its caller has been answered exactly once if it returns without an error, and not at
  -- all if it returns an error of the router, however many rounds it took and whatever the connections answered.
  pub run-answers :
      (p : Profile) (null : Frame) (t : Transaction) (fuel attempted : ℕ)
      (commands : List RedisCommand) (s s' : S) (log : List (Event Frame)) (r : Result (Unit {0}))
      → run link p null t fuel attempted commands s ≡ done (s', log, r)
      → replies log ≡ owed r
  run-answers p null t fuel attempted commands s s' log r e =
      subst IsRight e (run-IsRight p null t fuel attempted commands s)
