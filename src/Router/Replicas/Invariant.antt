-- ===== src/Router/Replicas/Invariant.antt =====
-- The well-formedness of a replica set, and its operations.
use fred_rs.Prelude.{
  ℕ, ◌+◌, ◌<◌, ◌%◌, ◌≡◌, refl, subst, ◌∙◌, true, false, Option, none, some, List, [], ◌∷◌, ◌++◌,
  All, inl, inr, arith, Bool-cases, Option-cases, length, length-append, get_elem?-some,
}
use native.Mathlib.Nat.{mod-lt}
use fred_rs.Machine.{Profile, done, usize_bound}
use fred_rs.Cluster.Types.{Server, server_eq}
use fred_rs.Router.ServerMap.{ServerMap, get, put, erase, server_eq-sym}
use fred_rs.Router.Replicas.{
  ReplicaSet, Entry, has, entry_or_new, push_new, add, without, put_back, remove_from, remove,
  next_replica, new,
}
use fred_rs.Router.Replicas.Relation.{has-append, has-without}
use fred_rs.Router.Replicas.Rounds.{next_replica_lem}

abbrev IsDistinct : List Server → Type 0
IsDistinct [] = Unit {0}
IsDistinct (r ∷ rs) = (has rs r ≡ false) × IsDistinct rs

abbrev IsEntry : Entry → Type 0
IsEntry e = (0 < length e.1) × IsDistinct e.1

abbrev AllEntries : ServerMap Entry → Type 0
AllEntries = All (λ (e : Server × Entry). IsEntry e.1)

abbrev pub IsReplicaSet : ReplicaSet → Type 0
IsReplicaSet s = AllEntries s.servers

AllEntries-put :
    (k : Server) (v : Entry) (m : ServerMap Entry)
    → IsEntry v
    → AllEntries m
    → AllEntries (put k v m)
unfolding put
AllEntries-put k v [] h a = (h, tt)
AllEntries-put k v (e ∷ m) h a = elim (Bool-cases (server_eq e.0 k)) [
  | inl same ↦ rw same (h, a.1)
  | inr other ↦ rw other (a.0, AllEntries-put k v m h a.1)
]

AllEntries-erase : (k : Server) (m : ServerMap Entry) → AllEntries m → AllEntries (erase k m)
unfolding erase
AllEntries-erase k [] a = tt
AllEntries-erase k (e ∷ m) a = elim (Bool-cases (server_eq e.0 k)) [
  | inl same ↦ rw same (AllEntries-erase k m a.1)
  | inr other ↦ rw other (a.0, AllEntries-erase k m a.1)
]

AllEntries-get :
    (k : Server) (m : ServerMap Entry) (e : Entry) → AllEntries m → get k m ≡ some e → IsEntry e
unfolding get
AllEntries-get k [] e a h = cc
AllEntries-get k (x ∷ m) e a h = elim (Bool-cases (server_eq x.0 k)) [
  | inl same ↦ let q : x.1 ≡ e = ground arith in subst (λ (y : Entry). IsEntry y) q a.0
  | inr other ↦ let rest : get k m ≡ some e = ground arith in AllEntries-get k m e a.1 rest
]

IsDistinct-append :
    (rs : List Server) (r : Server) → IsDistinct rs → has rs r ≡ false → IsDistinct (rs ++ (r ∷ []))
unfolding has
IsDistinct-append [] r d h = (refl, tt)
IsDistinct-append (q ∷ rs) r d h = (
  ground (arith, has-append rs r q, server_eq-sym r q),
  IsDistinct-append rs r d.1 (ground arith),
)

has-length : (rs : List Server) (r : Server) → has rs r ≡ true → 0 < length rs
unfolding has
has-length [] r h = cc
has-length (q ∷ rs) r h = omega arith

IsEntry-push :
    (r : Server) (o : Option Entry)
    → IsDistinct (entry_or_new o).1
    → IsEntry (push_new r (entry_or_new o))
unfolding push_new
IsEntry-push r o d =
    let e = entry_or_new o in
    elim (Bool-cases (has e.1 r)) [
      | inl there ↦ rw there (has-length e.1 r there, d)
      | inr new_one ↦
          rw new_one (omega (arith, length-append e.1 (r ∷ [])), IsDistinct-append e.1 r d new_one)
    ]

IsDistinct-without : (r : Server) (rs : List Server) → IsDistinct rs → IsDistinct (without r rs)
unfolding without
IsDistinct-without r [] d = tt
IsDistinct-without r (q ∷ rs) d = elim (Bool-cases (server_eq q r)) [
  | inl same ↦ rw same (IsDistinct-without r rs d.1)
  | inr other ↦ rw other (ground (arith, has-without r rs q), IsDistinct-without r rs d.1)
]

AllEntries-put_back :
    (k : Server) (count : ℕ) (rs : List Server) (m : ServerMap Entry)
    → IsDistinct rs
    → AllEntries m
    → AllEntries (put_back k count rs m)
AllEntries-put_back k count [] m d a = a
AllEntries-put_back k count (r ∷ rs) m d a = AllEntries-put k (count, r ∷ rs) m (omega arith, d) a

IsDistinct-entry :
    (k : Server) (m : ServerMap Entry) → AllEntries m → IsDistinct (entry_or_new (get k m)).1
IsDistinct-entry k m a = elim (Option-cases (get k m)) [
  | inl none_there ↦ rw none_there tt
  | inr (e, there) ↦ rw there (AllEntries-get k m e a there).1
]

AllEntries-remove_from :
    (o : Option Entry) (k r : Server) (m : ServerMap Entry)
    → get k m ≡ o
    → AllEntries m
    → AllEntries (remove_from o k r m)
AllEntries-remove_from none k r m h a = a
AllEntries-remove_from (some e) k r m h a =
    AllEntries-put_back k e.0 (without r e.1) (erase k m)
      (IsDistinct-without r e.1 (AllEntries-get k m e a h).1) (AllEntries-erase k m a)

-- The empty set keeps the invariant, and so do `add` and `remove`.
pub IsReplicaSet-kept :
    (s : ReplicaSet) (primary replica : Server)
    → IsReplicaSet s
    → IsReplicaSet new
      × IsReplicaSet (add primary replica s)
      × IsReplicaSet (remove primary replica s)
unfolding new add remove
IsReplicaSet-kept s primary replica a =
    let m = s.servers in
    (
      tt,
      AllEntries-put primary (push_new replica (entry_or_new (get primary m))) m
          (IsEntry-push replica (get primary m) (IsDistinct-entry primary m a)) a,
      AllEntries-remove_from (get primary m) primary replica m refl a,
    )

-- Where the invariant holds and the counter stays within `usize`, `next_replica` returns in both profiles: a primary node
-- with an entry gets one of its replicas, and the invariant is kept.
next_replica-done :
    (p : Profile) (primary : Server) (s : ReplicaSet) (e : Entry)
    → IsReplicaSet s
    → get primary s.servers ≡ some e
    → e.0 + 1 < usize_bound
    → (s' : ReplicaSet) × (replica : Server) × (next_replica p primary s ≡ done (s', some replica))
      × IsReplicaSet s'
next_replica-done p primary s e a there small =
    let ok = AllEntries-get primary s.servers e a there in
    let (replica, at) = get_elem?-some e.1 ((e.0 + 1) % length e.1) (mod-lt (e.0 + 1) ok.0) in
    (
      record s { servers = put primary (e.0 + 1, e.1) s.servers },
      replica,
      next_replica_lem p primary s e.0 e.1 there ok.0 small ∙ rw at refl,
      AllEntries-put primary (e.0 + 1, e.1) s.servers ok a,
    )
