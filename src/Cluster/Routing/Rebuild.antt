-- ===== src/Cluster/Routing/Rebuild.antt =====
-- Tables rebuilt from the ranges of a reply, against those ranges.
use fred_rs.Prelude.{
  ℕ, suc, ◌+◌, ◌-◌, ◌^◌, ◌≤◌, ◌<◌, ◌≡◌, refl, ap, ◌∙◌, true, ◌⊎◌, inl, inr, Option, none, some,
  List, [], ◌∷◌, map, length, arith, if◌then◌else◌, All, Bool-cases, leb, leb→le, leb→gt,
}
use fred_rs.Machine.{release, done}
use fred_rs.Cluster.Types.{Server, SlotRange, redis_cluster_slots}
use fred_rs.Cluster.Search.Spec.{owner, contains, IsTable, before_first, before_first-owner}
use fred_rs.Cluster.Routing.{
  get_server, primary_of, insert_by_start, sort_by_start, rebuild, renamed,
}
use fred_rs.Cluster.Routing.Lookup.{get_server-Ends}

-- Two ranges share no slot.
abbrev Apart : SlotRange → SlotRange → Type 0
Apart a b = (a.end < b.start) ⊎ (b.end < a.start)

-- The ranges of a cluster in any order: none is empty, and no two overlap.
abbrev pub IsPartition : List SlotRange → Type 0
IsPartition [] = Unit {0}
IsPartition (r ∷ rs) = (r.start ≤ r.end) × All (Apart r) rs × IsPartition rs

All-insert {ℓ} :
    (P : SlotRange → Type ℓ) (r : SlotRange) (qs : List SlotRange)
    → P r
    → All P qs
    → All P (insert_by_start r qs)
unfolding insert_by_start
All-insert P r [] h a = (h, tt)
All-insert P r (q ∷ qs) h a = elim (Bool-cases (leb r.start q.start)) [
  | inl le ↦ rw le (h, a)
  | inr gt ↦ rw gt (a.0, All-insert P r qs h a.1)
]

All-sort {ℓ} : (P : SlotRange → Type ℓ) (rs : List SlotRange) → All P rs → All P (sort_by_start rs)
unfolding sort_by_start
All-sort P [] a = a
All-sort P (r ∷ rs) a = All-insert P r (sort_by_start rs) a.0 (All-sort P rs a.1)

-- What starts behind a range that stands apart, ends behind it.
All-behind :
    (r q : SlotRange) (qs : List SlotRange)
    → r.end < q.start
    → q.start ≤ q.end
    → All (λ (x : SlotRange). q.end < x.start) qs
    → All (λ (x : SlotRange). r.end < x.start) qs
All-behind r q [] h k a = tt
All-behind r q (x ∷ qs) h k a = (omega arith, All-behind r q qs h k a.1)

insert-IsTable :
    (r : SlotRange) (qs : List SlotRange)
    → r.start ≤ r.end
    → All (Apart r) qs
    → IsTable qs
    → IsTable (insert_by_start r qs)
unfolding insert_by_start
insert-IsTable r [] h a t = (h, tt, tt)
insert-IsTable r (q ∷ qs) h a t = elim (Bool-cases (leb r.start q.start)) [
  | inl le ↦
      let before : r.end < q.start = omega (arith, leb→le r.start q.start le) in
      rw le (h, (before, All-behind r q qs before t.0 t.1), t)
  | inr gt ↦
      let behind : q.end < r.start = omega (arith, leb→gt r.start q.start gt) in
      rw gt (
        t.0,
        All-insert (λ (x : SlotRange). q.end < x.start) r qs behind t.1,
        insert-IsTable r qs h a.1 t.2,
      )
]

sort-IsTable : (rs : List SlotRange) → IsPartition rs → IsTable (sort_by_start rs)
unfolding sort_by_start
sort-IsTable [] p = tt
sort-IsTable (r ∷ rs) p =
    insert-IsTable r (sort_by_start rs) p.0 (All-sort (Apart r) rs p.1) (sort-IsTable rs p.2)

-- Of ranges that stand apart, at most one holds a slot: the order of the scan does not matter.
owner-none_of_Apart :
    (r : SlotRange) (qs : List SlotRange) (slot : ℕ)
    → All (Apart r) qs
    → contains r slot ≡ true
    → owner qs slot ≡ none
owner-none_of_Apart r [] slot a c = refl
owner-none_of_Apart r (q ∷ qs) slot a c = ground (arith, owner-none_of_Apart r qs slot a.1 c, a.0)

owner-insert :
    (r : SlotRange) (qs : List SlotRange) (slot : ℕ)
    → All (Apart r) qs
    → owner (insert_by_start r qs) slot ≡ (if contains r slot then some r else owner qs slot)
unfolding insert_by_start
owner-insert r [] slot a = refl
owner-insert r (q ∷ qs) slot a =
    ground (arith, a.0, owner-insert r qs slot a.1, owner-none_of_Apart r qs slot a.1)

owner-sort :
    (rs : List SlotRange) (slot : ℕ)
    → IsPartition rs
    → owner (sort_by_start rs) slot ≡ owner rs slot
unfolding sort_by_start
owner-sort [] slot p = refl
owner-sort (r ∷ rs) slot p =
    owner-insert r (sort_by_start rs) slot (All-sort (Apart r) rs p.1)
    ∙ ap (λ (o : Option SlotRange). if contains r slot then some r else o) (owner-sort rs slot p.2)

abbrev pub rename_option : (Server → Server) → Option Server → Option Server
rename_option f none = none
rename_option f (some s) = some (f s)

owner-renamed :
    (f : Server → Server) (rs : List SlotRange) (slot : ℕ)
    → primary_of (owner (map (renamed f) rs) slot) ≡ rename_option f (primary_of (owner rs slot))
owner-renamed f [] slot = refl
owner-renamed f (r ∷ rs) slot = elim (Bool-cases (contains r slot)) [
  | inl c ↦ rw c
  | inr c ↦ rw c (owner-renamed f rs slot)
]

length-insert :
    (r : SlotRange) (qs : List SlotRange) → length (insert_by_start r qs) ≡ length qs + 1
unfolding insert_by_start
length-insert r [] = omega arith
length-insert r (q ∷ qs) = ground (arith, length-insert r qs)

length-sort : (rs : List SlotRange) → length (sort_by_start rs) ≡ length rs
unfolding sort_by_start
length-sort [] = refl
length-sort (r ∷ rs) = omega (arith, length-insert r (sort_by_start rs), length-sort rs)

module _ (f : Server → Server) where
  length-renamed : (qs : List SlotRange) → length (map (renamed f) qs) ≡ length qs
  length-renamed [] = refl
  length-renamed (q ∷ qs) = ap suc (length-renamed qs)

  All-renamed :
      (n : ℕ) (qs : List SlotRange)
      → All (λ (x : SlotRange). n < x.start) qs
      → All (λ (x : SlotRange). n < x.start) (map (renamed f) qs)
  All-renamed n [] a = a
  All-renamed n (q ∷ qs) a = (a.0, All-renamed n qs a.1)

  IsTable-renamed : (qs : List SlotRange) → IsTable qs → IsTable (map (renamed f) qs)
  IsTable-renamed [] t = t
  IsTable-renamed (q ∷ qs) t = (t.0, All-renamed q.end qs t.1, IsTable-renamed qs t.2)

-- A table that is rebuilt from ranges that are not empty and do not overlap is in order.
pub rebuild-IsTable :
    (f : Server → Server) (parsed : List SlotRange)
    → IsPartition parsed
    → IsTable (rebuild f parsed).slots
unfolding rebuild
rebuild-IsTable f parsed p = IsTable-renamed f (sort_by_start parsed) (sort-IsTable parsed p)

length-rebuild :
    (f : Server → Server) (parsed : List SlotRange)
    → length (rebuild f parsed).slots ≡ length parsed
unfolding rebuild
length-rebuild f parsed = length-renamed f (sort_by_start parsed) ∙ length-sort parsed

owner-rebuild :
    (f : Server → Server) (parsed : List SlotRange) (slot : ℕ)
    → IsPartition parsed
    → primary_of (owner (rebuild f parsed).slots slot)
      ≡ rename_option f (primary_of (owner parsed slot))
unfolding rebuild
owner-rebuild f parsed slot p =
    owner-renamed f (sort_by_start parsed) slot
    ∙ ap (λ (o : Option SlotRange). rename_option f (primary_of o)) (owner-sort parsed slot p)

-- On the table that is rebuilt from ranges that are not empty and do not overlap, fewer than 2^63 - 1 of them, the build
-- without overflow checks finds for each slot up to 16384 the primary node, after its renaming, of the range that holds
-- the slot in the reply, and nothing where no range holds it.
pub get_server-rebuild :
    (f : Server → Server) (parsed : List SlotRange) (slot : ℕ)
    → IsPartition parsed
    → length parsed < 2 ^ 63 - 1
    → slot ≤ redis_cluster_slots
    → get_server release (rebuild f parsed) slot
      ≡ done (rename_option f (primary_of (owner parsed slot)))
get_server-rebuild f parsed slot p small le =
    let c = rebuild f parsed in
    let table = rebuild-IsTable f parsed p in
    get_server-Ends release c slot table (rw (length-rebuild f parsed) small) le
    ∙ elim (Bool-cases (before_first c.slots slot)) [
      | inl b ↦ rw (b, ← owner-rebuild f parsed slot p, before_first-owner c.slots slot table b)
      | inr b ↦ rw (b, owner-rebuild f parsed slot p)
    ]
