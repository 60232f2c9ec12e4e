-- ===== src/Router/Replicas.antt =====
-- `ReplicaSet` of src/router/replicas.rs: the replicas of each primary node, and whose turn it is.
pub mod Relation
pub mod Invariant
pub mod Rounds
use fred_rs.Prelude.{
  ℕ, zero, suc, ◌+◌, ◌%◌, Bool, true, false, not, ◌&&◌, ◌||◌, Option, none, some, List, [], ◌∷◌,
  ◌++◌, map, length, get_elem?, if◌then◌else◌,
}
use fred_rs.Machine.{Profile, Outcome, done, panicked, ◌>>=◌, usize_add, usize_rem}
use fred_rs.Cluster.Types.{Server, server_eq}
use fred_rs.Router.ServerMap.{ServerMap, get, put, erase}

-- A counter, and the replicas in the order in which they were added.
abbrev pub Entry : Type 0
Entry = ℕ × List Server

pub record ReplicaSet : Type 0 where
  pub servers : ServerMap Entry

unfoldable pub new : ReplicaSet
new = record { servers = [] }

-- `Vec::contains`.
unfoldable pub has : List Server → Server → Bool
has [] x = false
has (r ∷ rs) x = server_eq r x || has rs x

abbrev pub entry_or_new : Option Entry → Entry
entry_or_new none = (0, [])
entry_or_new (some e) = e

unfoldable pub push_new : Server → Entry → Entry
unfolding has
push_new replica e = if has e.1 replica then e else (e.0, e.1 ++ (replica ∷ []))

unfoldable pub add : Server → Server → ReplicaSet → ReplicaSet
unfolding push_new
add primary replica s = record s {
  servers = put primary (push_new replica (entry_or_new (get primary s.servers))) s.servers;
}

-- `filter(|node| node != replica)`.
unfoldable pub without : Server → List Server → List Server
without replica [] = []
without replica (r ∷ rs) =
    let rest = without replica rs in if server_eq r replica then rest else r ∷ rest

abbrev pub put_back : Server → ℕ → List Server → ServerMap Entry → ServerMap Entry
put_back primary count [] m = m
put_back primary count (r ∷ rs) m = put primary (count, r ∷ rs) m

abbrev pub remove_from : Option Entry → Server → Server → ServerMap Entry → ServerMap Entry
remove_from none primary replica m = m
remove_from (some e) primary replica m =
    put_back primary e.0 (without replica e.1) (erase primary m)

unfoldable pub remove : Server → Server → ReplicaSet → ReplicaSet
unfolding without
remove primary replica s = record s {
  servers = remove_from (get primary s.servers) primary replica s.servers;
}

abbrev take_turn :
    Profile → Option Entry → Server → ReplicaSet → Outcome (ReplicaSet × Option Server)
take_turn p none primary s = done (s, none)
take_turn p (some e) primary s = do
  idx ← usize_add p e.0 1
  turn ← usize_rem idx (length e.1)
  done (record s { servers = put primary (idx, e.1) s.servers }, get_elem? e.1 turn)

-- `next_replica`, with the changed set.
unfoldable pub next_replica : Profile → Server → ReplicaSet → Outcome (ReplicaSet × Option Server)
next_replica p primary s = take_turn p (get primary s.servers) primary s

abbrev servers_of : Option Entry → Option (List Server)
servers_of none = none
servers_of (some e) = some e.1

unfoldable pub replicas : Server → ReplicaSet → Option (List Server)
replicas primary s = servers_of (get primary s.servers)

map_replicas : Server → List Server → ServerMap Server → ServerMap Server
map_replicas primary [] out = out
map_replicas primary (r ∷ rs) out = map_replicas primary rs (put r primary out)

map_entries : ServerMap Entry → ServerMap Server → ServerMap Server
unfolding map_replicas
map_entries [] out = out
map_entries (e ∷ m) out = map_entries m (map_replicas e.0 e.1.1 out)

-- `to_map`: of each replica its primary node.
unfoldable to_map : ReplicaSet → ServerMap Server
unfolding map_entries
to_map s = map_entries s.servers []

entry_replicas : ServerMap Entry → List Server
entry_replicas [] = []
entry_replicas (e ∷ m) = e.1.1 ++ entry_replicas m

unfoldable all_replicas : ReplicaSet → List Server
unfolding entry_replicas
all_replicas s = entry_replicas s.servers

unfoldable clear : ReplicaSet → ReplicaSet
clear s = record s { servers = [] }
