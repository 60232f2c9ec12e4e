-- ===== src/Router/Replicas/Relation.antt =====
-- The set as a relation between primary nodes and replicas: additions and removals of one pair.
use fred_rs.Prelude.{
  ℕ, ◌≡◌, refl, Bool, true, false, not, ◌&&◌, ◌||◌, Option, none, some, List, [], ◌∷◌, ◌++◌,
  if◌then◌else◌, inl, inr, arith, Bool-cases,
}
use fred_rs.Cluster.Types.{Server, server_eq}
use fred_rs.Router.ServerMap.{
  ServerMap, get, erase, get-put, get-erase, get-same, server_eq-left, server_eq-right,
}
use fred_rs.Router.Replicas.{
  ReplicaSet, Entry, has, entry_or_new, push_new, add, without, put_back, remove_from, remove,
}

abbrev holds : Option Entry → Server → Bool
holds none replica = false
holds (some e) replica = has e.1 replica

-- Whether the set relates a primary node and a replica.
unfoldable pub routes : ReplicaSet → Server → Server → Bool
routes s primary replica = holds (get primary s.servers) replica

pub has-append :
    (rs : List Server) (r x : Server) → has (rs ++ (r ∷ [])) x ≡ (has rs x || server_eq r x)
unfolding has
has-append [] r x = ground arith
has-append (q ∷ rs) r x = ground (arith, has-append rs r x)

has-same : (rs : List Server) (r x : Server) → server_eq r x ≡ true → has rs r ≡ has rs x
unfolding has
has-same [] r x h = refl
has-same (q ∷ rs) r x h = rw (server_eq-right r x q h, has-same rs r x h) refl

has-push :
    (r : Server) (e : Entry) (x : Server) → has (push_new r e).1 x ≡ (has e.1 x || server_eq r x)
unfolding push_new
has-push r e x = ground (arith, has-append e.1 r x, has-same e.1 r x)

pub has-without :
    (r : Server) (rs : List Server) (x : Server)
    → has (without r rs) x ≡ (has rs x && not (server_eq r x))
unfolding has without
has-without r [] x = refl
has-without r (q ∷ rs) x =
    ground
      (arith, has-without r rs x, server_eq-left q r x, server_eq-left q x r, server_eq-right r x q)

holds-new : (o : Option Entry) (x : Server) → has (entry_or_new o).1 x ≡ holds o x
unfolding has
holds-new none x = refl
holds-new (some e) x = refl

-- The pairs after `add`, where servers are equal by host and port: those before, and the pair that is added.
pub routes-add :
    (s : ReplicaSet) (primary replica p r : Server)
    → routes (add primary replica s) p r
      ≡ (routes s p r || (server_eq primary p && server_eq replica r))
unfolding routes add
routes-add s primary replica p r =
    let m = s.servers in
    let e = push_new replica (entry_or_new (get primary m)) in
    rw (get-put primary p e m) (elim (Bool-cases (server_eq primary p)) [
      | inl same ↦
          rw
            (
              same,
              has-push replica (entry_or_new (get primary m)) r,
              holds-new (get primary m) r,
              get-same primary p m same,
            )
            refl
      | inr other ↦ ground arith
    ])

holds-put_back :
    (primary : Server) (count : ℕ) (rs : List Server) (p r : Server) (m : ServerMap Entry)
    → holds (get p (put_back primary count rs (erase primary m))) r
      ≡ (if server_eq primary p then has rs r else holds (get p m) r)
unfolding has
holds-put_back primary count [] p r m = ground (arith, get-erase primary p m)
holds-put_back primary count (q ∷ rs) p r m =
    ground (arith, get-put primary p (count, q ∷ rs) (erase primary m), get-erase primary p m)

removed :
    (o : Option Entry) (primary replica p r : Server) (m : ServerMap Entry)
    → get primary m ≡ o
    → holds (get p (remove_from o primary replica m)) r
      ≡ (holds (get p m) r && not (server_eq primary p && server_eq replica r))
removed none primary replica p r m h = ground (arith, get-same primary p m)
removed (some e) primary replica p r m h = ground (
  arith,
  get-same primary p m,
  holds-put_back primary e.0 (without replica e.1) p r m,
  has-without replica e.1 r,
)

-- The pairs after `remove`, where servers are equal by host and port: those before, without the pair that is removed.
pub routes-remove :
    (s : ReplicaSet) (primary replica p r : Server)
    → routes (remove primary replica s) p r
      ≡ (routes s p r && not (server_eq primary p && server_eq replica r))
unfolding routes remove
routes-remove s primary replica p r =
    removed (get primary s.servers) primary replica p r s.servers refl
