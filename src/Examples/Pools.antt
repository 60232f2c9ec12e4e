-- ===== src/Examples/Pools.antt =====
-- A pool of three clients, each with a flag that says whether it is connected.
use fred_rs.Prelude.{ℕ, ◌≡◌, Bool, true, false, ◌⊎◌, [], ◌∷◌, arith}
use fred_rs.Machine.{done}
use fred_rs.Responses.{incr_atomic}
use fred_rs.Pool.{RedisPool, next}
use fred_rs.Pool.Active.{next-active, IsIdle}

abbrev Client : Type 0
Client = ℕ × Bool

abbrev is_connected : Client → Bool
is_connected c = c.1

abbrev three : RedisPool Client
three = record { clients = (0, false) ∷ (1, true) ∷ (2, false) ∷ []; last = 1 }

next-active_example :
    (c : Client) × (next is_connected three
      ≡ done (record three { last = (incr_atomic three.last).0 }, c))
    × ((is_connected c ≡ true) ⊎ ((j : ℕ) → IsIdle is_connected three.clients j))
next-active_example = next-active is_connected three (omega arith)
