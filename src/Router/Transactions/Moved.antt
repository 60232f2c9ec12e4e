-- ===== src/Router/Transactions/Moved.antt =====
-- About src/router/transactions.rs: what redirections do to the attempts of a transaction.
use fred_rs.Prelude.{
  ℕ, zero, suc, Bool, false, ◌||◌, Option, none, some, List, ◌∷◌, ap, ◌≡◌, refl, subst, arith,
}
use fred_rs.Error.{Result, ok, err}
use fred_rs.Machine.{Profile, Outcome, done, panicked, exhausted, ◌>>=◌, u32_add}
use fred_rs.Cluster.Types.{Server}
use fred_rs.Cluster.Address.{ClusterErrorKind}
use fred_rs.Command.Policy.{is_exec, is_discard}
use fred_rs.Command.Request.{RedisCommand}
use fred_rs.Router.Transactions.{
  RouterResponse, TransactionResponse, Link, Event, again, duplicate, update_hash_slot,
}
use fred_rs.Router.Transactions.Run.{
  Transaction, Step, send_each, send_watched, round, recovered, write_command, received, run, Run,
  redirected,
}

-- EXEC and DISCARD, which the router adds to a transaction.
abbrev pub is_added : RedisCommand → Bool
is_added c = is_exec c.kind || is_discard c.kind

-- No command of the caller, WATCH included, is EXEC or DISCARD.
abbrev IsOwn : Option RedisCommand → Type 0
IsOwn none = Unit
IsOwn (some watch) = is_added watch ≡ false

module _ {ℓ κ} {S : Type ℓ} {Frame : Type κ} (link : Link S Frame) where
  -- A round that starts again, with commands left to send, of which the first is none that the router adds.
  abbrev IsAgain : Step link → Type 0
  IsAgain (s, log, r) =
      (c : RedisCommand) × (cs : List RedisCommand) × (r ≡ again (c ∷ cs)) × (is_added c ≡ false)

  abbrev pub IsMoved : Result (RouterResponse Frame) → Type κ
  IsMoved r = (slot : ℕ) × (dest : Server) × r ≡ ok (RouterResponse.moved slot dest)

  abbrev IsRedirected : Result (TransactionResponse Frame) → Type κ
  IsRedirected r =
      (slot : ℕ) × (dest : Server) × r
        ≡ ok (TransactionResponse.redirection ClusterErrorKind.moved slot dest)

  module _
      (found : (s : S) (c : RedisCommand)
        → (server : Server) × link.find_connection s c ≡ some server)
      (writes : (s : S) (c : RedisCommand) (server : Server)
        → is_added c ≡ false
        → (link.write_once s c server).0 ≡ ok tt)
      (moved : (s : S) (c : RedisCommand) (server : Server)
        → is_added c ≡ false
        → IsMoved (link.response (link.write_once s c server).1).0)
      (redirects : (s : S) (slot : ℕ) (dest : Server)
        → (link.redirect s ClusterErrorKind.moved slot dest).0 ≡ ok tt) where
    received_moved :
        (b : Bool) (r : Result (Unit {0}) × S)
        → r.0 ≡ ok tt
        → IsMoved (link.response r.1).0
        → IsRedirected (received link b r).1
    received_moved b (ok u, s) e (slot, dest, m) = (slot, dest, rw (m) refl)
    received_moved b (err _, s) e m = absurd (ground arith)

    write_command-moved :
        (b : Bool) (server : Server) (c : RedisCommand) (s : S)
        → is_added c ≡ false
        → IsRedirected (write_command link b server (duplicate c) s).1
    unfolding write_command
    write_command-moved b server c s h =
        received_moved b _ (writes s (duplicate c) server h) (moved s (duplicate c) server h)

    redirected-IsAgain :
        (slot : ℕ) (dest : Server) (c : RedisCommand) (cs : List RedisCommand) (s : S)
        → is_added c ≡ false
        → IsAgain
            (redirected link ClusterErrorKind.moved slot dest (update_hash_slot slot (c ∷ cs)) s)
    unfolding update_hash_slot
    redirected-IsAgain slot dest c cs s h = (_, _, ap (recovered link _) (redirects s slot dest), h)

    send_watched-IsAgain :
        (t : Transaction) (attempted : ℕ) (c : RedisCommand) (cs : List RedisCommand)
        (server : Server) (watched : Option RedisCommand) (s : S)
        → is_added c ≡ false
        → IsOwn watched
        → IsAgain (send_watched link t attempted (c ∷ cs) server watched s)
    unfolding send_each update_hash_slot
    send_watched-IsAgain t attempted c cs server none s h o =
        let (slot, dest, e) = write_command-moved t.abort_on_error server c s h in
        rw (e) (redirected-IsAgain slot dest c cs _ h)
    send_watched-IsAgain t attempted c cs server (some watch) s h o =
        let (slot, dest, e) = write_command-moved false server watch s o in
        rw (e) (redirected-IsAgain slot dest c cs _ h)

    round-IsAgain :
        (t : Transaction) (attempted : ℕ) (c : RedisCommand) (cs : List RedisCommand) (s : S)
        → is_added c ≡ false
        → IsOwn t.watched
        → IsAgain (round link t attempted c cs s)
    unfolding round
    round-IsAgain t attempted c cs s h o =
        let (server, e) = found s c in
        rw (e) (send_watched-IsAgain t attempted c cs server t.watched s h o)

    abbrev IsOpen : Run link → Type 0
    IsOpen (done r) = ⊥
    IsOpen panicked = Unit
    IsOpen exhausted = Unit

    >>=-IsOpen : (m : Run link) (f : _ → Run link) → IsOpen m → IsOpen (m >>= f)
    >>=-IsOpen (done r) f h = absurd h
    >>=-IsOpen panicked f h = tt
    >>=-IsOpen exhausted f h = tt

    u32_add-IsOpen :
        (m : Outcome ℕ) (f : ℕ → Run link) → ((n : ℕ) → IsOpen (f n)) → IsOpen (m >>= f)
    u32_add-IsOpen (done n) f h = h n
    u32_add-IsOpen panicked f h = tt
    u32_add-IsOpen exhausted f h = tt

    run-IsOpen :
        (p : Profile) (null : Frame) (t : Transaction) (fuel attempted : ℕ) (c : RedisCommand)
        (cs : List RedisCommand) (s : S)
        → is_added c ≡ false
        → IsOwn t.watched
        → IsOpen (run link p null t fuel attempted (c ∷ cs) s)
    unfolding run
    run-IsOpen p null t zero attempted c cs s h o = tt
    run-IsOpen p null t (suc fuel) attempted c cs s h o =
        let (c', cs', e, h') = round-IsAgain t attempted c cs s h o in
        rw (e, run)
          (u32_add-IsOpen (u32_add p attempted 1) _
            (λ n. >>=-IsOpen _ _ (run-IsOpen p null t fuel n c' cs' _ h' o)))

    -- Redirections do not count against `max_command_attempts`: while every command of the caller, WATCH included, that is
    -- written is answered by MOVED, to whatever slot and server, and connections are found, these writes succeed and the
    -- redirections succeed, the transaction never returns, however many rounds it takes.
    pub run-moved :
        (p : Profile) (null : Frame) (t : Transaction) (fuel attempted : ℕ) (c : RedisCommand)
        (cs : List RedisCommand) (s : S) (r : S × List (Event Frame) × Result (Unit {0}))
        → is_added c ≡ false
        → IsOwn t.watched
        → ¬ (run link p null t fuel attempted (c ∷ cs) s ≡ done r)
    run-moved p null t fuel attempted c cs s r h o e =
        subst IsOpen e (run-IsOpen p null t fuel attempted c cs s h o)
