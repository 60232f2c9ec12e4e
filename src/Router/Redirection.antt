-- ===== src/Router/Redirection.antt =====
-- Redirections and changes of the cluster: `cluster_redirection` and the tests for the owner of a slot in src/router/mod.rs,
-- `find_cluster_node` and `parse_cluster_changes` of src/router/clustered.rs.
pub mod Changes
pub mod Errors
use Prim.Native.Nat.{Ordering, lt, eq, gt}
use fred_rs.Prelude.{
  ℕ, ◌≡◌, refl, Bool, true, false, not, ◌&&◌, ◌||◌, Option, none, some, List, [], ◌∷◌, ◌++◌,
  if◌then◌else◌,
}
use fred_rs.Text.{Bytes}
use fred_rs.Error.{RedisError, Result, ok, err}
use fred_rs.Machine.{Profile, Outcome, done, ◌>>=◌}
use fred_rs.Value.{Floats}
use fred_rs.Cluster.Types.{Server, ClusterRouting, server_eq}
use fred_rs.Cluster.Address.{ClusterErrorKind}
use fred_rs.Cluster.Routing.{get_server, random_node, unique_primary_nodes, server_cmp}
use fred_rs.Command.Hash.{or}
use fred_rs.Command.Request.{RedisCommand, cluster_hash, new_asking}

-- What the connections do for a redirection. `ask` writes a command and waits for its answer.
pub record Network {ℓ} (S : Type ℓ) : Type ℓ where
  pub sync_cluster : S → Result (Unit {0}) × S
  pub has_server_connection : S → Server → Bool
  pub add_connection : S → Server → Result (Unit {0}) × S
  pub ask : S → RedisCommand → Server → Result (Unit {0}) × S

abbrev owned_by : Server → Option Server → Bool
owned_by server none = false
owned_by server (some owner) = server_eq owner server

abbrev get_if : Profile → Option ClusterRouting → ℕ → Outcome (Option Server)
get_if p none slot = done none
get_if p (some cache) slot = get_server p cache slot

-- `cluster_node_owns_slot`; `check_cluster_owner` is the same. The cache is there in a cluster.
unfoldable cluster_node_owns_slot : Profile → Option ClusterRouting → ℕ → Server → Outcome Bool
cluster_node_owns_slot p cache slot server = do
  owner ← get_if p cache slot
  done (owned_by server owner)

abbrev should_sync : Server → Option Server → Bool
should_sync server none = true
should_sync server (some owner) = server_eq server owner

module _ {ℓ} {S : Type ℓ} (network : Network S) where
  abbrev turned : Result (Unit {0}) × S → S × Result (Unit {0})
  turned (r, s) = (s, r)

  abbrev asked : ℕ → Server → Result (Unit {0}) × S → S × Result (Unit {0})
  asked slot server (err e, s) = (s, err e)
  asked slot server (ok u, s) = turned (network.ask s (new_asking slot) server)

  -- `cluster_redirection`. `state` is the client's copy of the routing table.
  unfoldable pub cluster_redirection :
      Profile
      → Option ClusterRouting
      → ClusterErrorKind
      → ℕ
      → Server
      → S
      → Outcome (S × Result (Unit {0}))
  unfolding new_asking
  cluster_redirection p state ClusterErrorKind.moved slot server s = do
    owner ← get_if p state slot
    done (if should_sync server owner then turned (network.sync_cluster s) else (s, ok tt))
  cluster_redirection p state ClusterErrorKind.ask slot server s = done (
      if network.has_server_connection s server
      then asked slot server (ok tt, s)
      else asked slot server (network.add_connection s server))

-- `find_cluster_node`, with the random index as an argument.
unfoldable find_cluster_node :
    Profile → Floats → (Bytes → ℕ) → ℕ → ClusterRouting → RedisCommand → Outcome (Option Server)
unfolding random_node
find_cluster_node p floats keyslot random cache c = elim (cluster_hash floats keyslot c) [
  | none ↦ done (random_node cache random)
  | some slot ↦ do owner ← get_server p cache slot; done (or owner (random_node cache random))
]

pub record ClusterChange : Type 0 where
  pub add : List Server
  pub remove : List Server

abbrev pub is_eq : Ordering → Bool
is_eq lt = false
is_eq eq = true
is_eq gt = false

-- `BTreeSet::contains`.
unfoldable pub contains : List Server → Server → Bool
unfolding server_cmp
contains [] s = false
contains (x ∷ xs) s = is_eq (server_cmp s x) || contains xs s

-- `BTreeSet::difference`: what the first set has and the second has not.
unfoldable pub difference : List Server → List Server → List Server
unfolding contains
difference [] ys = []
difference (x ∷ xs) ys = if contains ys x then difference xs ys else x ∷ difference xs ys

-- The servers that there are connections to stand in the order of their set.
unfoldable pub parse_cluster_changes : ClusterRouting → List Server → ClusterChange
unfolding difference unique_primary_nodes
parse_cluster_changes cluster_state old_servers = record {
  add = difference (unique_primary_nodes cluster_state) old_servers;
  remove = difference old_servers (unique_primary_nodes cluster_state);
}
