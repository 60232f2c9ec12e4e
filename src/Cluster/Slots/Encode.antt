-- ===== src/Cluster/Slots/Encode.antt =====
-- Slot tables as the server sends them, and read back.
use fred_rs.Prelude.{
  ℕ, ◌≤◌, ◌≡◌, refl, ap, sym, Bool, List, [], ◌∷◌, map, ge→ltb, All, Bool-cases, inl, inr,
}
use fred_rs.Text.{Str}
use fred_rs.Error.{ok}
use fred_rs.Value.{RedisValue, pos, Floats, values, items-values}
use fred_rs.Value.Scalar.{into_string, as_str}
use fred_rs.Value.Convert.{vec_from_value, collect}
use fred_rs.Cluster.Types.{Server, SlotRange}
use fred_rs.Cluster.Address.{new_server}
use fred_rs.Cluster.Slots.{
  parse_as_u16, parse_cluster_slot_nodes, parse_cluster_slots, vec_of_values,
}

-- One range of a reply: the range, and the blocks of its replicas, which the client passes over.
abbrev pub Reported : Type 0
Reported = SlotRange × List RedisValue

abbrev node_reply : Server → Str → RedisValue
node_reply s id = RedisValue.array (
    values (RedisValue.string s.host ∷ RedisValue.integer (pos s.port) ∷ RedisValue.string id ∷ []))

abbrev range_reply : Reported → List RedisValue
range_reply (r, replicas) =
    RedisValue.integer (pos r.start)
    ∷ RedisValue.integer (pos r.end)
    ∷ node_reply r.primary r.id
    ∷ replicas

-- The reply to `CLUSTER SLOTS`, without metadata.
abbrev pub slots_reply : List Reported → RedisValue
slots_reply rs = RedisValue.array (values (map (λ r. RedisValue.array (values (range_reply r))) rs))

-- The numbers are `u16`, and no TLS name is set yet.
abbrev pub IsPlain : Reported → Type 0
IsPlain (r, replicas) =
    (r.start ≤ 65535)
    × (r.end ≤ 65535)
    × (r.primary.port ≤ 65535)
    × (r.primary ≡ new_server r.primary.host r.primary.port)

parse_as_u16-pos : (n : ℕ) → n ≤ 65535 → parse_as_u16 (RedisValue.integer (pos n)) ≡ ok n
unfolding parse_as_u16
parse_as_u16-pos n h = rw (ge→ltb 65535 n h)

collect-ok : (vs : List RedisValue) → collect ok vs ≡ ok vs
unfolding collect
collect-ok [] = refl
collect-ok (v ∷ vs) = rw (collect-ok vs)

collect-arrays :
    (rs : List Reported)
    → collect vec_of_values (map (λ r. RedisValue.array (values (range_reply r))) rs)
      ≡ ok (map range_reply rs)
unfolding collect vec_from_value
collect-arrays [] = refl
collect-arrays (r ∷ rs) = rw (items-values r.1, collect-ok r.1, collect-arrays rs)

abbrev ranges : List Reported → List SlotRange
ranges = map (λ r. r.0)

module _ (floats : Floats) (is_ip : Str → Bool) (default_host : Str) where
  parse_cluster_slot_nodes-reply :
      (r : Reported)
      → IsPlain r
      → parse_cluster_slot_nodes floats is_ip (range_reply r) default_host ≡ ok (r.0)
  unfolding parse_cluster_slot_nodes into_string as_str vec_from_value
  parse_cluster_slot_nodes-reply (r, replicas) (s, e, p, q) =
      let whole : ok (record r { primary = new_server r.primary.host r.primary.port }) ≡ ok r =
        ap (λ (x : Server). ok (record r { primary = x })) (sym q) in
      rw (parse_as_u16-pos r.start s, parse_as_u16-pos r.end e, parse_as_u16-pos r.primary.port p)
        (elim (Bool-cases (is_ip r.primary.host)) [
          | inl ip ↦ rw ip whole
          | inr name ↦ rw name whole
        ])

  collect-ranges :
      (rs : List Reported)
      → All IsPlain rs
      → collect (λ r. parse_cluster_slot_nodes floats is_ip r default_host) (map range_reply rs)
        ≡ ok (ranges rs)
  unfolding collect
  collect-ranges [] a = refl
  collect-ranges (r ∷ rs) a = rw (parse_cluster_slot_nodes-reply r a.0, collect-ranges rs a.1)

  -- A reply without metadata, whose slots and ports are `u16` numbers, is read back as the ranges that it reports.
  pub parse_cluster_slots-reply :
      (rs : List Reported)
      → All IsPlain rs
      → parse_cluster_slots floats is_ip (slots_reply rs) default_host ≡ ok (ranges rs)
  unfolding parse_cluster_slots vec_from_value
  parse_cluster_slots-reply rs a = rw (
    items-values (map (λ r. RedisValue.array (values (range_reply r))) rs),
    collect-arrays rs,
    collect-ranges rs a,
  )
