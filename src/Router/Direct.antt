-- ===== src/Router/Direct.antt =====
-- `process_ask` and `process_moved` of src/router/commands.rs: a command that was redirected without a channel to the router
-- is written again, straight to the server of the redirection.
use fred_rs.Prelude.{
  ℕ, zero, suc, ◌+◌, ◌≤◌, ◌<◌, ◌≡◌, refl, false, Option, none, some, List, [], ◌∷◌, ltb, Bool-cases,
  inl, inr, arith, ltb→lt, ltb→ge,
}
use fred_rs.Error.{RedisError, Result, ok, err}
use fred_rs.Machine.{Profile, Outcome, done, exhausted, ◌>>=◌, u32_max}
use fred_rs.Cluster.Types.{Server}
use fred_rs.Command.Kind.{ClusterHash}
use fred_rs.Command.Request.{RedisCommand, incr_check_attempted}
use fred_rs.Command.Request.Attempts.{incr-ok, incr-refused, attempted_times}
use fred_rs.Router.Commands.{Fate, answered}

-- The calls of the router: `send_asking_with_policy`, `sync_cluster_with_policy`, and `write_direct`, whose error gives the
-- command back.
pub record Directly {ℓ} (S : Type ℓ) : Type ℓ where
  pub send_asking : S → Server → ℕ → Result (Unit {0}) × S
  pub sync_cluster : S → Result (Unit {0}) × S
  pub write_direct : S → RedisCommand → Server → Option (RedisError × RedisCommand) × S

module _ {ℓ} {S : Type ℓ} (router : Directly S) (max_command_attempts : ℕ) (p : Profile)
    (server : Server) where
  abbrev pub Run : Type ℓ
  Run = Outcome (S × List Fate × Result (Unit {0}))

  abbrev written : (RedisCommand → S → Run) → Option (RedisError × RedisCommand) × S → Run
  written next (none, s) = done (s, [], ok tt)
  written next (some (e, c), s) = next c s

  abbrev counted : (RedisCommand → S → Run) → S → RedisCommand → Result RedisCommand → Run
  counted next s c (err e) = done (s, answered c (err e) ∷ [], ok tt)
  counted next s c (ok c') = written next (router.write_direct s c' server)

  abbrev recovered : (RedisCommand → S → Run) → RedisCommand → Result (Unit {0}) × S → Run
  recovered next c (err e, s) = done (s, answered c (err e) ∷ [], err e)
  recovered next c (ok u, s) = do
    r ← incr_check_attempted p max_command_attempts c
    counted next s c r

  -- The loop of both, with a round for each unit of fuel.
  unfoldable pub write_again : (S → Result (Unit {0}) × S) → (fuel : ℕ) → RedisCommand → S → Run
  unfolding incr_check_attempted
  write_again recover zero c s = exhausted
  write_again recover (suc fuel) c s = recovered (write_again recover fuel) c (recover s)

  abbrev pub redirected : ℕ → RedisCommand → RedisCommand
  redirected slot c = record c { use_replica = false; hasher = ClusterHash.custom slot }

  unfoldable pub process_ask : (fuel : ℕ) → ℕ → RedisCommand → S → Run
  unfolding write_again
  process_ask fuel slot c s =
      write_again (λ s. router.send_asking s server slot) fuel (redirected slot c) s

  unfoldable pub process_moved : (fuel : ℕ) → ℕ → RedisCommand → S → Run
  unfolding write_again
  process_moved fuel slot c s = write_again (λ s. router.sync_cluster s) fuel (redirected slot c) s

  abbrev GivesBack : ℕ → Option (RedisError × RedisCommand) → Type 0
  GivesBack n none = Unit
  GivesBack n (some (e, c)) = c.attempted ≡ n

  abbrev pub IsAnsweredOnce : List Fate → Type 0
  IsAnsweredOnce [] = Unit
  IsAnsweredOnce (f ∷ []) = Unit
  IsAnsweredOnce (f ∷ g ∷ rest) = ⊥

  abbrev pub Ends : Run → Type ℓ
  Ends m =
      (s' : S) × (fates : List Fate) × (r : Result (Unit {0})) × (m ≡ done (s', fates, r))
      × IsAnsweredOnce fates

  module _ (positive : 0 < max_command_attempts) (small : max_command_attempts < u32_max)
      (gives_back : (s : S) (c : RedisCommand)
        → GivesBack c.attempted (router.write_direct s c server).0) where
    written-Ends :
        (next : RedisCommand → S → Run) (n : ℕ) (w : Option (RedisError × RedisCommand) × S)
        → GivesBack n w.0
        → ((c : RedisCommand) (s : S) → c.attempted ≡ n → Ends (next c s))
        → Ends (written next w)
    written-Ends next n (none, s) g h = (s, [], ok tt, refl, tt)
    written-Ends next n (some (e, c), s) g h = h c s g

    recovered-Ends :
        (next : RedisCommand → S → Run) (c : RedisCommand) (r : Result (Unit {0}) × S)
        → c.attempted ≤ max_command_attempts
        → (c.attempted < max_command_attempts
            → (c' : RedisCommand) (s : S) → c'.attempted ≡ c.attempted + 1
            → Ends (next c' s))
        → Ends (recovered next c r)
    recovered-Ends next c (err e, s) h k = (s, _, err e, refl, tt)
    recovered-Ends next c (ok u, s) h k = elim (Bool-cases (ltb c.attempted max_command_attempts)) [
      | inl lt ↦
          let lt = ltb→lt c.attempted max_command_attempts lt in
          rw (incr-ok p max_command_attempts c lt (omega arith))
            (written-Ends next (c.attempted + 1) _ (gives_back s (attempted_times 1 c)) (k lt))
      | inr ge ↦
          let ge = ltb→ge c.attempted max_command_attempts ge in
          rw (incr-refused p max_command_attempts c positive (omega arith) small)
            (s, _, ok tt, refl, tt)
    ]

    write_again-Ends :
        (recover : S → Result (Unit {0}) × S) (fuel : ℕ) (c : RedisCommand) (s : S)
        → c.attempted ≤ max_command_attempts
        → max_command_attempts < c.attempted + fuel
        → Ends (write_again recover fuel c s)
    unfolding write_again
    write_again-Ends recover zero c s h k = absurd (omega arith)
    write_again-Ends recover (suc fuel) c s h k =
        recovered-Ends (write_again recover fuel) c (recover s) h
          (λ lt c' s' e. write_again-Ends recover fuel c' s' (omega arith) (omega arith))

    -- A redirected command is written again at most as often as the limit of attempts allows, whatever the recovery and the
    -- connections do, and its caller is answered at most once. The limit is neither 0 nor the largest `u32`, the command has
    -- not passed it, and a write that fails gives the command back with its count.
    pub process_ask-Ends :
        (slot : ℕ) (c : RedisCommand) (s : S)
        → c.attempted ≤ max_command_attempts
        → Ends (process_ask (suc max_command_attempts) slot c s)
          × Ends (process_moved (suc max_command_attempts) slot c s)
    unfolding process_ask process_moved
    process_ask-Ends slot c s h = (
      write_again-Ends (λ s. router.send_asking s server slot) (suc max_command_attempts)
          (redirected slot c) s h (omega arith),
      write_again-Ends (λ s. router.sync_cluster s) (suc max_command_attempts) (redirected slot c) s
          h (omega arith),
    )
