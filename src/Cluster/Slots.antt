-- ===== src/Cluster/Slots.antt =====
-- `CLUSTER SLOTS` responses: src/protocol/cluster.rs.
pub mod Encode
pub mod Hostname
use fred_rs.Prelude.{
  ℕ, zero, suc, ◌+◌, ◌≤◌, Bool, true, false, not, ◌&&◌, Option, none, some, List, [], ◌∷◌, leb, ltb,
  ◌==◌, if◌then◌else◌, length,
}
use fred_rs.Text.{Str, text, bytes_eq, parse_u16}
use fred_rs.Error.{RedisErrorKind, RedisError, Result, ok, err, fail, ◌>>=◌}
use fred_rs.Value.{RedisValue, ℤ, pos, negsuc, Floats, is_null, array_len}
use fred_rs.Value.Scalar.{into_string, as_str}
use fred_rs.Value.Convert.{vec_from_value, string_map_from_value, collect}
use fred_rs.Cluster.Types.{Server, SlotRange}
use fred_rs.Cluster.Address.{new_server, parse_int}

slot_of_i64 : ℤ → Result ℕ
slot_of_i64 (negsuc n) = fail RedisErrorKind.parse "Invalid cluster slot integer."
slot_of_i64 (pos n) =
    if ltb 65535 n then fail RedisErrorKind.parse "Invalid cluster slot integer." else ok n

unfoldable pub parse_as_u16 : RedisValue → Result ℕ
unfolding slot_of_i64
parse_as_u16 (RedisValue.integer i) = slot_of_i64 i
parse_as_u16 (RedisValue.string s) = parse_int (parse_u16 s)
parse_as_u16 _ = fail RedisErrorKind.parse "Could not parse value as cluster slot."

-- `check_metadata_hostname`; the entries stand in the order of the map that was read.
unfoldable pub check_metadata_hostname : List (Str × Str) → Option Str
check_metadata_hostname [] = none
check_metadata_hostname ((k, v) ∷ es) =
    if bytes_eq k (text "hostname") then some v else check_metadata_hostname es

abbrev or_host : Option Str → Str → Str
or_host none host = host
or_host (some h) host = h

abbrev non_empty : Option ℕ → Bool
non_empty none = false
non_empty (some n) = ltb 0 n

-- `RedisValue` is itself a `FromRedis`.
abbrev vec_of_values : RedisValue → Result (List RedisValue)
vec_of_values = vec_from_value ok

-- `is_ip` is the test of `IpAddr::from_str`.
module _ (floats : Floats) (is_ip : Str → Bool) where
  -- The metadata, if the block has any.
  metadata_of : List RedisValue → Result (List (Str × Str))
  metadata_of (_ ∷ _ ∷ _ ∷ m ∷ _) =
      if not (is_null m) && non_empty (array_len m) then string_map_from_value floats m else ok []
  metadata_of _ = ok []

  preferred : List (Str × Str) → Option Str → Result Str
  unfolding check_metadata_hostname
  preferred metadata none =
      fail RedisErrorKind.protocol "Invalid CLUSTER SLOTS server block hostname."
  preferred metadata (some host) =
      if is_ip host then ok (or_host (check_metadata_hostname metadata) host) else ok host

  unfoldable pub parse_cluster_slot_hostname : List RedisValue → Str → Result Str
  unfolding metadata_of preferred check_metadata_hostname is_null array_len
  parse_cluster_slot_hostname [] default_host =
      fail RedisErrorKind.protocol "Invalid CLUSTER SLOTS server block."
  parse_cluster_slot_hostname (h ∷ server) default_host = do
    metadata ← metadata_of (h ∷ server)
    if is_null h
        then ok (or_host (check_metadata_hostname metadata) default_host)
        else preferred metadata (into_string floats h)

  abbrev to_option {ℓ} : {A : Type ℓ} → Result A → Option A
  to_option (ok a) = some a
  to_option (err e) = none

  abbrev node_block : Result Str → Result ℕ → Option Str → Option (Str × ℕ × Str)
  node_block (ok host) (ok port) (some id) = some (host, port, id)
  node_block _ _ _ = none

  -- The host, the port and the id; the joined address is not used by the caller.
  unfoldable pub parse_node_block : List RedisValue → Str → Option (Str × ℕ × Str)
  unfolding parse_cluster_slot_hostname parse_as_u16
  parse_node_block (h ∷ p ∷ i ∷ rest) default_host =
      node_block (parse_cluster_slot_hostname (h ∷ p ∷ i ∷ rest) default_host) (parse_as_u16 p)
        (as_str floats i)
  parse_node_block _ default_host = none

  abbrev range_of : ℕ → ℕ → Option (Str × ℕ × Str) → Result SlotRange
  range_of start end none = fail RedisErrorKind.cluster "Invalid CLUSTER SLOTS response."
  range_of start end (some (host, port, id)) =
      ok (record { start = start; end = end; primary = new_server host port; id = id })

  unfoldable pub parse_cluster_slot_nodes : List RedisValue → Str → Result SlotRange
  unfolding parse_node_block
  parse_cluster_slot_nodes (s ∷ e ∷ n ∷ replicas) default_host = do
    start ← parse_as_u16 s
    end ← parse_as_u16 e
    server_block ← vec_of_values n
    range_of start end (parse_node_block server_block default_host)
  parse_cluster_slot_nodes _ default_host =
      fail RedisErrorKind.protocol "Invalid CLUSTER SLOTS response."

  unfoldable pub parse_cluster_slots : RedisValue → Str → Result (List SlotRange)
  unfolding parse_cluster_slot_nodes
  parse_cluster_slots frame default_host = do
    slot_ranges ← vec_from_value vec_of_values frame
    collect (λ r. parse_cluster_slot_nodes r default_host) slot_ranges
