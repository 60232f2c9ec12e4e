-- ===== src/Cluster/Types.antt =====
-- src/protocol/types.rs: servers, slot ranges and the routing table.
use fred_rs.Prelude.{ℕ, Bool, ◌&&◌, Option, List, ◌==◌}
use fred_rs.Text.{Str, bytes_eq}

pub record Server : Type 0 where
  pub host : Str
  pub port : ℕ
  pub tls_server_name : Option Str

-- `PartialEq for Server`: the TLS name takes no part.
unfoldable pub server_eq : Server → Server → Bool
server_eq a b = bytes_eq a.host b.host && (a.port == b.port)

pub record SlotRange : Type 0 where
  pub start : ℕ
  pub end : ℕ
  pub primary : Server
  pub id : Str

pub record ClusterRouting : Type 0 where
  pub slots : List SlotRange

-- REDIS_CLUSTER_SLOTS
abbrev pub redis_cluster_slots : ℕ
redis_cluster_slots = 16384
