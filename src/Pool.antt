-- ===== src/Pool.antt =====
-- src/modules/pool.rs: the pool of clients, and which of them runs the next command. A client is a parameter, as is the
-- test whether it is connected.
pub mod Active
use fred_rs.Prelude.{
  ℕ, zero, suc, ◌+◌, Bool, true, false, Option, none, some, List, [], ◌∷◌, length, get_elem?, ltb,
  if◌then◌else◌,
}
use fred_rs.Error.{RedisErrorKind, Result, ok, err, fail}
use fred_rs.Machine.{Outcome, done, panicked, ◌>>=◌, usize_rem}
use fred_rs.Responses.{incr_atomic}

-- The clients, and the count of the calls of `next`.
pub record RedisPool {ℓ} (Client : Type ℓ) : Type ℓ where
  pub clients : List Client
  pub last : ℕ

module _ {ℓ} {Client : Type ℓ} where
  abbrev pub repeated : Client → ℕ → List Client
  repeated client zero = []
  repeated client (suc n) = client ∷ repeated client n

  -- `RedisPool::new`; `client` is what `RedisClient::new` makes of the configuration.
  unfoldable pub new : Client → ℕ → Result (RedisPool Client)
  new client size =
      if ltb 0 size
      then ok (record { clients = repeated client size; last = 0 })
      else fail RedisErrorKind.config "Pool cannot be empty."

  -- Indexing, which panics out of range.
  abbrev pub client_at : List Client → ℕ → Outcome Client
  client_at clients idx = elim (get_elem? clients idx) [
    | none ↦ panicked
    | some client ↦ done client
  ]

  -- `RedisPool::next`, without the feature `pool-prefer-active`.
  unfoldable pub next_in_turn : RedisPool Client → Outcome (RedisPool Client × Client)
  next_in_turn pool = do
    let last = incr_atomic pool.last
    idx ← usize_rem last.1 (length pool.clients)
    client ← client_at pool.clients idx
    done (record pool { last = last.0 }, client)

  module _ (is_connected : Client → Bool) where
    -- The loop `for _ in 0 .. clients.len()`, and the client that is left after it.
    unfoldable pub first_active : List Client → ℕ → ℕ → Outcome Client
    first_active clients zero idx = client_at clients idx
    first_active clients (suc n) idx = do
      client ← client_at clients idx
      elim (is_connected client) [
        | true ↦ done client
        | false ↦ do idx' ← usize_rem (idx + 1) (length clients); first_active clients n idx'
      ]

    -- `RedisPool::next`, with the feature `pool-prefer-active`.
    unfoldable pub next : RedisPool Client → Outcome (RedisPool Client × Client)
    unfolding first_active
    next pool = do
      let last = incr_atomic pool.last
      idx ← usize_rem last.1 (length pool.clients)
      client ← first_active pool.clients (length pool.clients) idx
      done (record pool { last = last.0 }, client)
