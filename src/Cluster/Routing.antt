-- ===== src/Cluster/Routing.antt =====
-- `ClusterRouting` of src/protocol/types.rs: the cached table of slot ranges.
pub mod Rebuild
pub mod Lookup
use Prim.Native.Nat.{compare, Ordering, lt, eq, gt}
use fred_rs.Prelude.{
  ℕ, zero, suc, Option, none, some, List, [], ◌∷◌, map, length, get_elem?, ltb, leb, if◌then◌else◌,
}
use fred_rs.Text.{Str}
use fred_rs.Machine.{Profile, Outcome, done, ◌>>=◌}
use fred_rs.Cluster.Types.{Server, SlotRange, ClusterRouting}
use fred_rs.Cluster.Search.{binary_search}

-- `ClusterRouting::new`.
unfoldable pub new : ClusterRouting
new = record { slots = [] }

abbrev pub primary_of : Option SlotRange → Option Server
primary_of none = none
primary_of (some r) = some r.primary

abbrev primary_at : List SlotRange → Option ℕ → Option Server
primary_at slots none = none
primary_at slots (some idx) = primary_of (get_elem? slots idx)

abbrev get_from : Profile → List SlotRange → ℕ → Outcome (Option Server)
get_from p [] slot = done none
get_from p (r ∷ rs) slot = do idx ← binary_search p (r ∷ rs) slot; done (primary_at (r ∷ rs) idx)

-- `ClusterRouting::get_server`.
unfoldable pub get_server : Profile → ClusterRouting → ℕ → Outcome (Option Server)
get_server p c slot = get_from p c.slots slot

-- `sort_by(|a, b| a.start.cmp(&b.start))`, a stable sort.
insert_by_start : SlotRange → List SlotRange → List SlotRange
insert_by_start r [] = r ∷ []
insert_by_start r (q ∷ qs) = if leb r.start q.start then r ∷ q ∷ qs else q ∷ insert_by_start r qs

unfoldable pub sort_by_start : List SlotRange → List SlotRange
unfolding insert_by_start
sort_by_start [] = []
sort_by_start (r ∷ rs) = insert_by_start r (sort_by_start rs)

-- The change that `modify_cluster_slot_hostnames` makes to the server of a range.
abbrev pub renamed : (Server → Server) → SlotRange → SlotRange
renamed rename r = record r { primary = rename r.primary }

-- `ClusterRouting::rebuild` from the ranges that `parse_cluster_slots` returned.
unfoldable pub rebuild : (Server → Server) → List SlotRange → ClusterRouting
unfolding sort_by_start
rebuild rename parsed = record { slots = map (renamed rename) (sort_by_start parsed) }

-- `ClusterRouting::random_slot`, the random index being an argument.
unfoldable random_slot : ClusterRouting → ℕ → Option SlotRange
random_slot c idx = if ltb 0 (length c.slots) then get_elem? c.slots idx else none

-- `ClusterRouting::random_node`.
unfoldable pub random_node : ClusterRouting → ℕ → Option Server
unfolding random_slot
random_node c idx = primary_of (random_slot c idx)

-- `str::cmp`: bytewise, a prefix first.
unfoldable pub bytes_cmp : Str → Str → Ordering
bytes_cmp [] [] = eq
bytes_cmp [] (y ∷ ys) = lt
bytes_cmp (x ∷ xs) [] = gt
bytes_cmp (x ∷ xs) (y ∷ ys) =
    let rest = bytes_cmp xs ys in elim (compare x y) [ lt ↦ lt | eq ↦ rest | gt ↦ gt ]

-- `Ord for Server`.
unfoldable pub server_cmp : Server → Server → Ordering
server_cmp a b = elim (bytes_cmp a.host b.host) [ eq ↦ compare a.port b.port | other ↦ other ]

-- `BTreeMap::insert`: an equal key stays, and its value is replaced.
unfoldable pub btree_insert {ℓ} : {V : Type ℓ} → Server → V → List (Server × V) → List (Server × V)
btree_insert k v [] = (k, v) ∷ []
btree_insert k v ((j, w) ∷ m) =
    let rest = btree_insert k v m in
    elim (server_cmp k j) [ lt ↦ (k, v) ∷ (j, w) ∷ m | eq ↦ (j, v) ∷ m | gt ↦ (j, w) ∷ rest ]

insert_starts : List (Server × ℕ) → List SlotRange → List (Server × ℕ)
insert_starts m [] = m
insert_starts m (r ∷ rs) = insert_starts (btree_insert r.primary r.start m) rs

-- `ClusterRouting::unique_hash_slots`.
unfoldable unique_hash_slots : ClusterRouting → List ℕ
unfolding insert_starts
unique_hash_slots c = map (λ e. e.1) (insert_starts [] c.slots)

unfoldable pub insert_nodes : List (Server × Unit {0}) → List SlotRange → List (Server × Unit {0})
insert_nodes m [] = m
insert_nodes m (r ∷ rs) = insert_nodes (btree_insert r.primary tt m) rs

-- `ClusterRouting::unique_primary_nodes`; a `BTreeSet` is a `BTreeMap` without values.
unfoldable pub unique_primary_nodes : ClusterRouting → List Server
unfolding insert_nodes
unique_primary_nodes c = map (λ e. e.0) (insert_nodes [] c.slots)
