-- ===== src/Backchannel/Choice.antt =====
-- The server that a command of the backchannel goes to.
use fred_rs.Prelude.{ℕ, ◌-◌, ◌^◌, ◌≤◌, ◌<◌, ◌≡◌, refl, true, false, some, List, length}
use fred_rs.Text.{Bytes}
use fred_rs.Error.{RedisErrorKind}
use fred_rs.Machine.{release, done}
use fred_rs.Value.{Floats}
use fred_rs.Cluster.Types.{Server, SlotRange, redis_cluster_slots}
use fred_rs.Cluster.Search.Spec.{owner}
use fred_rs.Cluster.Routing.{rebuild, primary_of}
use fred_rs.Cluster.Routing.Rebuild.{IsPartition, rename_option, get_server-rebuild}
use fred_rs.Command.Policy.{use_random_cluster_node}
use fred_rs.Command.Request.{RedisCommand, cluster_hash}
use fred_rs.Backchannel.{Backchannel, find_server, ok_or}

module _ (floats : Floats) (keyslot : Bytes → ℕ) where
  -- In a cluster, in the build without overflow checks, a command that has a slot up to 16384, is not for a random node and is
  -- not asked to go to the blocked server goes to the owner of the slot, as the ranges say that the table was rebuilt from,
  -- fewer than 2^63 - 1 that are not empty and do not overlap; where no range holds the slot the answer is an error.
  pub find_server-owner :
      (f : Server → Server) (parsed : List SlotRange) (b : Backchannel) (command : RedisCommand)
      (slot : ℕ)
      → IsPartition parsed
      → length parsed < 2 ^ 63 - 1
      → slot ≤ redis_cluster_slots
      → use_random_cluster_node command.kind ≡ false
      → cluster_hash floats keyslot command ≡ some slot
      → find_server floats keyslot release true (some (rebuild f parsed)) b command false
        ≡ done (
            ok_or RedisErrorKind.cluster "Failed to find cluster owner."
              (rename_option f (primary_of (owner parsed slot))))
  unfolding find_server
  find_server-owner f parsed b command slot p small le one has_slot =
      rw (one, has_slot, get_server-rebuild f parsed slot p small le) refl
