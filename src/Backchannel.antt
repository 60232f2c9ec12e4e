-- ===== src/Backchannel.antt =====
-- src/modules/backchannel.rs: the separate connection for the commands that manage the client or the cluster. A
-- transport is the server that it is connected to; what the network answers is an argument.
pub mod Connection
pub mod Choice
use fred_rs.Prelude.{
  ℕ, String, Bool, true, false, not, ◌&&◌, Option, none, some, List, [], ◌∷◌, if◌then◌else◌,
}
use fred_rs.Text.{Bytes}
use fred_rs.Error.{RedisErrorKind, RedisError, Result, ok, err, fail}
use fred_rs.Machine.{Profile, Outcome, done, ◌>>=◌}
use fred_rs.Value.{ℤ, Floats}
use fred_rs.Cluster.Types.{Server, ClusterRouting, server_eq}
use fred_rs.Cluster.Routing.{get_server}
use fred_rs.Command.Policy.{use_random_cluster_node}
use fred_rs.Command.Hash.{or}
use fred_rs.Command.Request.{RedisCommand, cluster_hash}
use fred_rs.Router.ServerMap.{ServerMap, get}

pub record Backchannel : Type 0 where
  pub transport : Option Server
  pub blocked : Option Server
  pub connection_ids : ServerMap ℤ

abbrev pub is_server : Option Server → Server → Bool
is_server none server = false
is_server (some s) server = server_eq s server

abbrev is_current : Server → Option Server → Bool
is_current current none = true
is_current current (some server) = server_eq server current

abbrev pub should_close : Option Server → Option Server → Bool
should_close none server = false
should_close (some current) server = is_current current server

-- `check_and_disconnect`; without a server it always disconnects.
unfoldable pub check_and_disconnect : Option Server → Backchannel → Backchannel
check_and_disconnect server b =
    if should_close b.transport server then record b { transport = none } else b

unfoldable update_connection_ids : ServerMap ℤ → Backchannel → Backchannel
update_connection_ids ids b = record b { connection_ids = ids }

unfoldable connection_id : Server → Backchannel → Option ℤ
connection_id server b = get server b.connection_ids

unfoldable pub set_blocked : Server → Backchannel → Backchannel
set_blocked server b = record b { blocked = some server }

unfoldable set_unblocked : Backchannel → Backchannel
set_unblocked b = record b { blocked = none }

unfoldable check_and_set_unblocked : Server → Backchannel → Backchannel
unfolding set_unblocked
check_and_set_unblocked server b = if is_server b.blocked server then set_unblocked b else b

abbrev is_some : Option Server → Bool
is_some none = false
is_some (some s) = true

unfoldable is_blocked : Backchannel → Bool
is_blocked b = is_some b.blocked

abbrev pub both_equal : Option Server → Option Server → Bool
both_equal none b = false
both_equal (some a) b = is_server b a

-- `has_blocked_transport` looks at the blocked server first, `current_server_is_blocked` at the connection.
unfoldable pub has_blocked_transport : Backchannel → Bool
has_blocked_transport b = both_equal b.blocked b.transport

unfoldable pub current_server_is_blocked : Backchannel → Bool
current_server_is_blocked b = both_equal b.transport b.blocked

abbrev pub first_key : ServerMap ℤ → Option Server
first_key [] = none
first_key (e ∷ m) = some e.0

unfoldable any_server : Backchannel → Option Server
any_server b = or (or b.transport b.blocked) (first_key b.connection_ids)

abbrev pub connect : Result (Unit {0}) → Server → Backchannel → Backchannel × Result Bool
connect (ok u) server b = (record b { transport = some server }, ok true)
connect (err e) server b = (record b { transport = none }, err e)

-- `ping_ok` is whether the server answers the ping, `created` what connecting and setting up return.
unfoldable pub check_and_create_transport :
    (ping_ok : Bool) (created : Result (Unit {0}))
    → Server
    → Backchannel
    → Backchannel × Result Bool
check_and_create_transport ping_ok created server b =
    if is_server b.transport server && ping_ok then (b, ok false) else connect created server b

abbrev pub ok_or : RedisErrorKind → String → Option Server → Result Server
ok_or kind details none = fail kind details
ok_or kind details (some s) = ok s

abbrev owner_of : Profile → Option ClusterRouting → Option ℕ → Outcome (Result Server)
owner_of p none slot = done (fail RedisErrorKind.cluster "Missing cluster routing state.")
owner_of p (some routing) none =
    done (fail RedisErrorKind.cluster "Failed to find cluster hash slot.")
owner_of p (some routing) (some slot) = do
  server ← get_server p routing slot
  done (ok_or RedisErrorKind.cluster "Failed to find cluster owner." server)

module _ (floats : Floats) (keyslot : Bytes → ℕ) (p : Profile) where
  -- `find_server`; the cluster's routing table is there once it has been read.
  unfoldable pub find_server :
      (is_clustered : Bool) (routing : Option ClusterRouting)
      → Backchannel
      → RedisCommand
      → Bool
      → Outcome (Result Server)
  unfolding any_server
  find_server is_clustered routing b command true =
      done (ok_or RedisErrorKind.unknown "No connections are blocked." b.blocked)
  find_server is_clustered routing b command false =
      if is_clustered && not (use_random_cluster_node command.kind)
      then owner_of p routing (cluster_hash floats keyslot command)
      else done (ok_or RedisErrorKind.unknown "Failed to find backchannel server." (any_server b))
