-- ===== src/Examples/Replication.antt =====
-- A primary node with two replicas.
use fred_rs.Prelude.{ℕ, ◌≡◌, refl, not, ◌&&◌, ◌||◌, Option, some, List, [], ◌∷◌, arith, get_elem?}
use fred_rs.Text.{bytes_eq}
use fred_rs.Machine.{release, done}
use fred_rs.Cluster.Types.{Server, server_eq}
use fred_rs.Cluster.Address.{new_server}
use fred_rs.Router.ServerMap.{get}
use fred_rs.Router.Replicas.{ReplicaSet, add, remove, new, has}
use fred_rs.Router.Replicas.Relation.{routes, routes-add, routes-remove}
use fred_rs.Router.Replicas.Invariant.{IsReplicaSet, IsReplicaSet-kept}
use fred_rs.Router.Replicas.Rounds.{turns, turns-fair}
use fred_rs.Examples.Routing.{host}

abbrev primary : Server
primary = new_server host 7000

abbrev first : Server
first = new_server host 7001

abbrev second : Server
second = new_server host 7002

abbrev two : ReplicaSet
two = record { servers = (primary, (5, first ∷ second ∷ [])) ∷ [] }

two-IsReplicaSet : IsReplicaSet two
unfolding has server_eq bytes_eq
two-IsReplicaSet = ((omega arith, (refl, (refl, tt))), tt)

two_get : get primary two.servers ≡ some (5, first ∷ second ∷ [])
unfolding get server_eq bytes_eq
two_get = refl

routes-add_example :
    routes (add primary first two) primary second
    ≡ (routes two primary second || (server_eq primary primary && server_eq first second))
routes-add_example = routes-add two primary first primary second

routes-remove_example :
    routes (remove primary first two) primary second
    ≡ (routes two primary second && not (server_eq primary primary && server_eq first second))
routes-remove_example = routes-remove two primary first primary second

IsReplicaSet-kept_example :
    IsReplicaSet new
    × IsReplicaSet (add primary first two)
    × IsReplicaSet (remove primary first two)
IsReplicaSet-kept_example = IsReplicaSet-kept two primary first two-IsReplicaSet

turns-fair_example :
    (s' : ReplicaSet) × (given : List (Option Server)) × (turns release 2 primary two
      ≡ done (s', given))
    × (k : ℕ) × (get_elem? given k ≡ some (some second))
turns-fair_example =
    turns-fair release primary two 5 (first ∷ second ∷ []) 1 second two_get (omega arith) refl
