-- ===== src/Router/Redirection/Changes.antt =====
-- About `parse_cluster_changes` of src/router/clustered.rs.
use Prim.Native.Nat.{compare, Ordering, lt, eq, gt}
use fred_rs.Prelude.{
  map, ℕ, ◌≡◌, refl, ◌∙◌, Bool, true, false, not, ◌&&◌, ◌||◌, List, [], ◌∷◌, if◌then◌else◌, arith,
}
use fred_rs.Text.{Str}
use fred_rs.Cluster.Types.{Server, SlotRange, ClusterRouting}
use fred_rs.Cluster.Routing.{
  unique_primary_nodes, server_cmp, bytes_cmp, btree_insert, insert_nodes,
}
use fred_rs.Router.Redirection.{contains, difference, is_eq, parse_cluster_changes}

compare-eq : (a b : ℕ) → compare a b ≡ eq → a ≡ b
compare-eq a b h = ground arith

chosen : (o r : Ordering) → (elim o [ lt ↦ lt | eq ↦ r | gt ↦ gt ]) ≡ eq → (o ≡ eq) × (r ≡ eq)
chosen lt r h = absurd (ground arith)
chosen eq r h = (refl, h)
chosen gt r h = absurd (ground arith)

both_eq : (o r : Ordering) → (elim o [ eq ↦ r | other ↦ other ]) ≡ eq → (o ≡ eq) × (r ≡ eq)
both_eq lt r h = absurd (ground arith)
both_eq eq r h = (refl, h)
both_eq gt r h = absurd (ground arith)

bytes_cmp-eq : (a b : Str) → bytes_cmp a b ≡ eq → a ≡ b
unfolding bytes_cmp
bytes_cmp-eq [] [] h = refl
bytes_cmp-eq [] (y ∷ ys) h = absurd (ground arith)
bytes_cmp-eq (x ∷ xs) [] h = absurd (ground arith)
bytes_cmp-eq (x ∷ xs) (y ∷ ys) h =
    let (o, rest) = chosen (compare x y) (bytes_cmp xs ys) h in
    let same = compare-eq x y o in let tail = bytes_cmp-eq xs ys rest in cc

server_cmp-fields : (a b : Server) → server_cmp a b ≡ eq → (a.host ≡ b.host) × (a.port ≡ b.port)
unfolding server_cmp
server_cmp-fields a b h =
    let (o, rest) = both_eq (bytes_cmp a.host b.host) (compare a.port b.port) h in
    (bytes_cmp-eq a.host b.host o, compare-eq a.port b.port rest)

-- Equal servers compare alike with a third, on either side.
server_cmp-same :
    (a b z : Server)
    → server_cmp a b ≡ eq
    → (server_cmp a z ≡ server_cmp b z) × (server_cmp z a ≡ server_cmp z b)
unfolding server_cmp
server_cmp-same a b z h =
    let (host, port) = server_cmp-fields a b h in (rw (host, port) refl, rw (host, port) refl)

is_eq-true : (o : Ordering) → is_eq o ≡ true → o ≡ eq
is_eq-true lt h = absurd (ground arith)
is_eq-true eq h = refl
is_eq-true gt h = absurd (ground arith)

contains-same :
    (xs : List Server) (a b : Server) → server_cmp a b ≡ eq → contains xs a ≡ contains xs b
unfolding contains
contains-same [] a b h = refl
contains-same (x ∷ xs) a b h = rw ((server_cmp-same a b x h).0, contains-same xs a b h) refl

contains-if :
    (b : Bool) (ds : List Server) (x s : Server)
    → contains (if b then ds else x ∷ ds) s
      ≡ (if b then contains ds s else is_eq (server_cmp s x) || contains ds s)
unfolding contains
contains-if true ds x s = refl
contains-if false ds x s = refl

with_and_without :
    (m b r i c : Bool)
    → (m ≡ true → c ≡ b)
    → r ≡ (i && not c)
    → (if b then r else m || r) ≡ ((m || i) && not c)
with_and_without true true r i c h e = ground (arith, h refl)
with_and_without true false r i c h e = ground (arith, h refl)
with_and_without false true r i c h e = e
with_and_without false false r i c h e = e

-- A set without another.
contains-difference :
    (xs ys : List Server) (s : Server)
    → contains (difference xs ys) s ≡ (contains xs s && not (contains ys s))
unfolding contains difference
contains-difference [] ys s = refl
contains-difference (x ∷ xs) ys s =
    contains-if (contains ys x) (difference xs ys) x s
    ∙ with_and_without (is_eq (server_cmp s x)) (contains ys x) _ _ (contains ys s)
        (λ q. contains-same ys s x (is_eq-true (server_cmp s x) q)) (contains-difference xs ys s)

-- Whether a server is the primary node of one of the ranges.
abbrev pub is_primary : List SlotRange → Server → Bool
is_primary [] s = false
is_primary (r ∷ rs) s = is_eq (server_cmp s r.primary) || is_primary rs s

or_again : (a b : Bool) → (a || b) ≡ (a || (a || b))
or_again true b = refl
or_again false b = refl

or_swap : (a b c : Bool) → (a || (b || c)) ≡ (b || (a || c))
or_swap true true c = refl
or_swap true false c = refl
or_swap false b c = refl

-- `btree_insert` adds its key to the set.
contains-insert :
    (k s : Server) (m : List (Server × Unit {0}))
    → contains (map (λ e. e.0) (btree_insert k tt m)) s
      ≡ (is_eq (server_cmp s k) || contains (map (λ e. e.0) m) s)
unfolding contains btree_insert
contains-insert k s [] = refl
contains-insert k s ((j, w) ∷ m) =
    placed (server_cmp k j) (λ h. (server_cmp-same k j s h).1) (contains-insert k s m)
  where
    placed :
        (o : Ordering)
        → (o ≡ eq → server_cmp s k ≡ server_cmp s j)
        → contains (map (λ e. e.0) (btree_insert k tt m)) s
          ≡ (is_eq (server_cmp s k) || contains (map (λ e. e.0) m) s)
        → contains
            (map
              (λ e. e.0)
              (elim o [
                | lt ↦ (k, tt) ∷ (j, w) ∷ m
                | eq ↦ (j, tt) ∷ m
                | gt ↦ (j, w) ∷ btree_insert k tt m
              ]))
            s
          ≡ (is_eq (server_cmp s k) || (is_eq (server_cmp s j) || contains (map (λ e. e.0) m) s))
    placed lt h e = refl
    placed eq h e = rw (h refl) (or_again (is_eq (server_cmp s j)) _)
    placed gt h e = rw (e) (or_swap (is_eq (server_cmp s j)) (is_eq (server_cmp s k)) _)

contains-insert_nodes :
    (m : List (Server × Unit {0})) (rs : List SlotRange) (s : Server)
    → contains (map (λ e. e.0) (insert_nodes m rs)) s
      ≡ (contains (map (λ e. e.0) m) s || is_primary rs s)
unfolding insert_nodes contains
contains-insert_nodes m [] s = ground arith
contains-insert_nodes m (r ∷ rs) s =
    let rest = contains-insert_nodes (btree_insert r.primary tt m) rs s in
    let first = contains-insert r.primary s m in ground (arith, rest, first)

contains-unique_primary_nodes :
    (table : ClusterRouting) (s : Server)
    → contains (unique_primary_nodes table) s ≡ is_primary table.slots s
unfolding unique_primary_nodes contains
contains-unique_primary_nodes table s = contains-insert_nodes [] table.slots s

-- A server is added exactly when it is the primary node of a range of the table and there is no connection to it, and removed
-- exactly when there is a connection to it and it is the primary node of no range.
pub parse_cluster_changes_lem :
    (cluster_state : ClusterRouting) (old : List Server) (s : Server)
    → (contains (parse_cluster_changes cluster_state old).add s
        ≡ (is_primary cluster_state.slots s && not (contains old s)))
      × (contains (parse_cluster_changes cluster_state old).remove s
          ≡ (contains old s && not (is_primary cluster_state.slots s)))
unfolding parse_cluster_changes
parse_cluster_changes_lem cluster_state old s = (
  rw
      (
        contains-difference (unique_primary_nodes cluster_state) old s,
        contains-unique_primary_nodes cluster_state s,
      )
      refl,
  rw
      (
        contains-difference old (unique_primary_nodes cluster_state) s,
        contains-unique_primary_nodes cluster_state s,
      )
      refl,
)
