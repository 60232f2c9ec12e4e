-- ===== src/Router/Transactions/Ending.antt =====
-- About src/router/transactions.rs: when a transaction comes to an end, and when it does not.
use fred_rs.Prelude.{
  ℕ, zero, suc, Bool, true, false, Option, none, some, List, [], ◌∷◌, ◌++◌, leb, Bool-cases, ◌≡◌,
  refl, inl, inr, ◌≤◌, ◌<◌, ◌+◌, arith,
}
use fred_rs.Error.{RedisError, Result, ok, err}
use fred_rs.Machine.{Profile, done, ◌>>=◌, u32_add, u32_add-done, u32_max}
use fred_rs.Cluster.Types.{Server}
use fred_rs.Command.Request.{RedisCommand}
use fred_rs.Router.Transactions.{
  RouterResponse, TransactionResponse, Link, Event, Round, over, failed, again, duplicate,
}
use fred_rs.Router.Transactions.Run.{
  Transaction, Step, after_exec, after_command, after_watch, retried, send_each, send_watched,
  round, recovered, write_command, received, accepted, run, Run, logged_all,
}

-- The answer of the router is no redirection.
abbrev IsDirect {κ} : {Frame : Type κ} → Result (RouterResponse Frame) → Type 0
IsDirect (ok (RouterResponse.ask slot server)) = ⊥
IsDirect (ok (RouterResponse.moved slot server)) = ⊥
IsDirect (ok RouterResponse.continue) = Unit
IsDirect (ok (RouterResponse.connection_closed e)) = Unit
IsDirect (ok (RouterResponse.transaction_error e)) = Unit
IsDirect (ok (RouterResponse.transaction_result frame)) = Unit
IsDirect (err e) = Unit

abbrev IsStaying {κ} : {Frame : Type κ} → Result (TransactionResponse Frame) → Type 0
IsStaying (ok (TransactionResponse.redirection kind slot server)) = ⊥
IsStaying (ok TransactionResponse.continue) = Unit
IsStaying (ok (TransactionResponse.retry e)) = Unit
IsStaying (ok (TransactionResponse.finished frame)) = Unit
IsStaying (err e) = Unit

module _ {ℓ κ} {S : Type ℓ} {Frame : Type κ} (link : Link S Frame) where
  -- A round that starts again has attempts left.
  abbrev IsBounded : Transaction → ℕ → Round → Type 0
  IsBounded t attempted over = Unit
  IsBounded t attempted (failed e) = Unit
  IsBounded t attempted (again commands) = attempted < t.max_command_attempts

  recovered-IsBounded :
      (t : Transaction) (attempted : ℕ) (commands : List RedisCommand) (r : Result (Unit {0}))
      → attempted < t.max_command_attempts
      → IsBounded t attempted (recovered link commands r)
  recovered-IsBounded t attempted commands (ok u) h = h
  recovered-IsBounded t attempted commands (err e) h = tt

  retried-IsBounded :
      (t : Transaction) (attempted : ℕ) (commands : List RedisCommand) (e : RedisError) (s : S)
      → IsBounded t attempted (retried link t attempted commands e s).2
  retried-IsBounded t attempted commands e s =
      elim (Bool-cases (leb t.max_command_attempts attempted)) [
        | inl q ↦ rw (q) tt
        | inr q ↦
            rw (q) (recovered-IsBounded t attempted commands (link.reconnect s).0 (ground arith))
      ]

  module _ (direct : (s : S) → IsDirect (link.response s).0) where
    accepted-IsStaying :
        (b : Bool) (r : Result (RouterResponse Frame)) → IsDirect r → IsStaying (accepted link b r)
    accepted-IsStaying b (err e) h = tt
    accepted-IsStaying b (ok RouterResponse.continue) h = tt
    accepted-IsStaying b (ok (RouterResponse.connection_closed e)) h = tt
    accepted-IsStaying b (ok (RouterResponse.transaction_result frame)) h = tt
    accepted-IsStaying b (ok (RouterResponse.ask _ _)) h = absurd h
    accepted-IsStaying b (ok (RouterResponse.moved _ _)) h = absurd h
    accepted-IsStaying true (ok (RouterResponse.transaction_error e)) h = tt
    accepted-IsStaying false (ok (RouterResponse.transaction_error e)) h = tt

    received-IsStaying : (b : Bool) (r : Result (Unit {0}) × S) → IsStaying (received link b r).1
    received-IsStaying b (err e, s) = tt
    received-IsStaying b (ok u, s) = accepted-IsStaying b _ (direct s)

    write_command-IsStaying :
        (b : Bool) (server : Server) (c : RedisCommand) (s : S)
        → IsStaying (write_command link b server c s).1
    unfolding write_command
    write_command-IsStaying b server c s = received-IsStaying b _

    module _ (t : Transaction) (attempted : ℕ) (commands : List RedisCommand) where
      after_exec-IsBounded :
          (server : Server) (r : _) (s : S)
          → IsBounded t attempted (after_exec link t attempted commands server r s).2
      after_exec-IsBounded server (ok (TransactionResponse.finished frame)) s = tt
      after_exec-IsBounded server (ok (TransactionResponse.retry e)) s =
          retried-IsBounded t attempted commands e _
      after_exec-IsBounded server (ok (TransactionResponse.redirection kind slot dest)) s = tt
      after_exec-IsBounded server (ok TransactionResponse.continue) s = tt
      after_exec-IsBounded server (err e) s = tt

      after_command-IsBounded :
          (server : Server) (next : S → Step link)
          → ((s : S) → IsBounded t attempted (next s).2)
          → (r : _) → IsStaying r
          → (s : S)
          → IsBounded t attempted (after_command link t attempted commands server next r s).2
      after_command-IsBounded server next h (ok TransactionResponse.continue) k s = h s
      after_command-IsBounded server next h (ok (TransactionResponse.retry e)) k s =
          retried-IsBounded t attempted commands e _
      after_command-IsBounded server next h (ok (TransactionResponse.redirection kind slot server'))
            k s =
          absurd k
      after_command-IsBounded server next h (ok (TransactionResponse.finished frame)) k s = tt
      after_command-IsBounded server next h (err e) k s = tt

      after_watch-IsBounded :
          (next : S → Step link)
          → ((s : S) → IsBounded t attempted (next s).2)
          → (r : _) → IsStaying r
          → (s : S) → IsBounded t attempted (after_watch link t attempted commands next r s).2
      after_watch-IsBounded next h (ok TransactionResponse.continue) k s = h s
      after_watch-IsBounded next h (ok (TransactionResponse.retry e)) k s =
          retried-IsBounded t attempted commands e s
      after_watch-IsBounded next h (ok (TransactionResponse.redirection kind slot server')) k s =
          absurd k
      after_watch-IsBounded next h (ok (TransactionResponse.finished frame)) k s = tt
      after_watch-IsBounded next h (err e) k s = tt

      send_each-IsBounded :
          (server : Server) (cs : List RedisCommand) (s : S)
          → IsBounded t attempted (send_each link t attempted commands server cs s).2
      unfolding send_each
      send_each-IsBounded server [] s = after_exec-IsBounded server _ _
      send_each-IsBounded server (c ∷ cs) s =
          after_command-IsBounded server _ (λ s. send_each-IsBounded server cs s) _
            (write_command-IsStaying t.abort_on_error server (duplicate c) s) _

      send_watched-IsBounded :
          (server : Server) (watched : Option RedisCommand) (s : S)
          → IsBounded t attempted (send_watched link t attempted commands server watched s).2
      send_watched-IsBounded server none s = send_each-IsBounded server commands s
      send_watched-IsBounded server (some watch) s =
          after_watch-IsBounded _ (λ s. send_each-IsBounded server commands s) _
            (write_command-IsStaying false server (duplicate watch) s) _

    module _
        (found : (s : S) (c : RedisCommand)
          → (server : Server) × link.find_connection s c ≡ some server) where
      round-IsBounded :
          (t : Transaction) (attempted : ℕ) (c : RedisCommand) (cs : List RedisCommand) (s : S)
          → IsBounded t attempted (round link t attempted c cs s).2
      unfolding round
      round-IsBounded t attempted c cs s =
          let (server, e) = found s c in
          rw (e) (send_watched-IsBounded t attempted (c ∷ cs) server t.watched s)

      logged_all-done :
          (log : List (Event Frame)) (m : Run link)
          → (r : _) × m ≡ done r
          → (r : _) × (m >>= logged_all link log) ≡ done r
      logged_all-done log m ((s, rest, r), e) = ((s, log ++ rest, r), rw (e) refl)

      round_end-done :
          (p : Profile) (t : Transaction) (attempted : ℕ)
          (next : ℕ → List RedisCommand → S → Run link)
          → t.max_command_attempts ≤ u32_max
          → (attempted < t.max_command_attempts
              → (commands : List RedisCommand) (s : S)
              → (r : _) × next (attempted + 1) commands s ≡ done r)
          → (step : Step link) → IsBounded t attempted step.2
          → (r : S × List (Event Frame) × Result (Unit {0})) × (elim step.2 [
            | over ↦ done (step.0, step.1, ok tt)
            | failed e ↦ done (step.0, step.1, err e)
            | again commands ↦ do
              attempted' ← u32_add p attempted 1
              rest ← next attempted' commands step.0
              logged_all link step.1 rest
          ])
              ≡ done r
      round_end-done p t attempted next b h (s, log, over) k = ((s, log, ok tt), refl)
      round_end-done p t attempted next b h (s, log, failed e) k = ((s, log, err e), refl)
      round_end-done p t attempted next b h (s, log, again commands) k =
          rw (u32_add-done p attempted 1 (omega arith)) (logged_all-done log _ (h k commands s))

      run-done_from :
          (p : Profile) (null : Frame) (t : Transaction) (fuel attempted : ℕ)
          (commands : List RedisCommand) (s : S)
          → t.max_command_attempts ≤ u32_max
          → 0 < fuel
          → t.max_command_attempts < attempted + fuel
          → (r : S × List (Event Frame) × Result (Unit {0})) × run link p null t fuel attempted
                commands s
              ≡ done r
      unfolding run
      run-done_from p null t fuel attempted [] s b z h = (_, refl)
      run-done_from p null t zero attempted (c ∷ cs) s b z h = absurd (omega arith)
      run-done_from p null t (suc fuel) attempted (c ∷ cs) s b z h =
          round_end-done p t attempted (λ n. run link p null t fuel n) b
            (λ k commands s'.
              run-done_from p null t fuel (attempted + 1) commands s' b (omega arith) (omega arith))
            _ (round-IsBounded t attempted c cs s)

      -- A transaction whose commands are never answered by a redirection, and for which a connection is always found,
      -- returns within `max_command_attempts` rounds after the first, in either build and without a panic.
      pub run-done :
          (p : Profile) (null : Frame) (t : Transaction) (commands : List RedisCommand) (s : S)
          → t.max_command_attempts ≤ u32_max
          → (r : S × List (Event Frame) × Result (Unit {0})) × run link p null t
                (suc t.max_command_attempts)
                0
                commands
                s
              ≡ done r
      run-done p null t commands s b =
          run-done_from p null t (suc t.max_command_attempts) 0 commands s b (omega arith)
            (omega arith)
