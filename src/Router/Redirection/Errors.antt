-- ===== src/Router/Redirection/Errors.antt =====
-- `process_cluster_error` of src/router/clustered.rs: where a MOVED or ASK answer goes.
use fred_rs.Prelude.{ℕ, ◌≡◌, refl, ◌≤◌, false, Option, none, some}
use fred_rs.Text.{Str, text}
use fred_rs.Error.{RedisErrorKind, RedisError, Result, ok, err}
use fred_rs.Cluster.Types.{Server}
use fred_rs.Cluster.Address.{
  ClusterErrorKind, parse_cluster_error, from_parts, display, new_server, host_or,
}
use fred_rs.Cluster.Address.Roundtrip.{
  parse_cluster_error-text, redirection_text, server_to_parts-display,
}
use fred_rs.Text.Split.{Lacks}
use fred_rs.Command.Request.{RedisCommand}

-- The redirection as `RouterResponse::Ask` or `Moved` on the channel of the command, or as `RouterCommand::Ask` or `Moved` in
-- the command queue; or an answer to the caller, while the router continues; or nothing.
pub data Delivery : Type 0 where
  to_router to_queue : ClusterErrorKind → (slot : ℕ) → Server → RedisCommand → Delivery
  to_caller : RedisCommand → RedisError → Delivery
  dropped : Delivery

-- The channel of the command to the router: missing, open, or closed at the other end.
pub data Channel : Type 0 where
  missing listening closed : Channel

abbrev queued_unless : Option ℕ → ClusterErrorKind → ℕ → Server → RedisCommand → Delivery
queued_unless none kind slot server c = Delivery.to_queue kind slot server c
queued_unless (some id) kind slot server c = Delivery.dropped

abbrev delivered : Channel → ClusterErrorKind → ℕ → Server → RedisCommand → Delivery
delivered Channel.missing kind slot server c = Delivery.to_queue kind slot server c
delivered Channel.listening kind slot server c = Delivery.to_router kind slot server c
delivered Channel.closed kind slot server c = queued_unless c.transaction_id kind slot server c

abbrev resolved : Channel → ClusterErrorKind → ℕ → Option Server → RedisCommand → Delivery
resolved channel kind slot none c =
    Delivery.to_caller c (record {
      kind = RedisErrorKind.cluster;
      details = text "Invalid cluster redirection error.";
    })
resolved channel kind slot (some server) c = delivered channel kind slot server c

abbrev parsed : Channel → Str → Result (ClusterErrorKind × ℕ × Str) → RedisCommand → Delivery
parsed channel host (err e) c = Delivery.to_caller c e
parsed channel host (ok (kind, slot, server_str)) c =
    resolved channel kind slot (from_parts server_str host) c

abbrev on_primary : RedisCommand → RedisCommand
on_primary c = record c { use_replica = false }

-- The text of the frame is missing where it is not UTF-8.
unfoldable pub process_cluster_error : Channel → Server → RedisCommand → Option Str → Delivery
unfolding parse_cluster_error from_parts
process_cluster_error channel server c none =
    Delivery.to_caller (on_primary c)
      (record { kind = RedisErrorKind.protocol; details = text "Invalid cluster error." })
process_cluster_error channel server c (some content) =
    parsed channel server.host (parse_cluster_error content) (on_primary c)

from_parts-display :
    (host default_host : Str) (port : ℕ)
    → Lacks b':' host
    → port ≤ 65535
    → from_parts (display (new_server host port)) default_host
      ≡ some (new_server (host_or host default_host) port)
unfolding from_parts
from_parts-display host default_host port h k = rw (server_to_parts-display host port h k) refl

-- A MOVED or ASK answer goes to the command queue where the command has no channel to the router, to the channel where that
-- is open, and where it is closed to the command queue, or nowhere if the command is in a transaction. It names the slot and
-- the server of the answer, with the host of the answering server where it names none, and the command no longer asks for a
-- replica. The slot and the port are `u16`, the host holds no colon, and the address no space.
pub process_cluster_error-display :
    (server : Server) (c : RedisCommand) (kind : ClusterErrorKind) (slot : ℕ) (host : Str)
    (port id : ℕ)
    → slot ≤ 65535
    → port ≤ 65535
    → Lacks b':' host
    → Lacks b' ' (display (new_server host port))
    → (process_cluster_error Channel.missing server c
          (some (redirection_text kind slot (display (new_server host port))))
        ≡ Delivery.to_queue kind slot
            (new_server (host_or host server.host) port)
            (record c { use_replica = false }))
      × (process_cluster_error Channel.listening server c
            (some (redirection_text kind slot (display (new_server host port))))
          ≡ Delivery.to_router kind slot
              (new_server (host_or host server.host) port)
              (record c { use_replica = false }))
      × (process_cluster_error Channel.closed server
            (record c { transaction_id = none })
            (some (redirection_text kind slot (display (new_server host port))))
          ≡ Delivery.to_queue kind slot
              (new_server (host_or host server.host) port)
              (record c { use_replica = false; transaction_id = none }))
      × (process_cluster_error Channel.closed server
            (record c { transaction_id = some id })
            (some (redirection_text kind slot (display (new_server host port))))
          ≡ Delivery.dropped)
unfolding process_cluster_error
process_cluster_error-display server c kind slot host port id h k l m =
    rw
      (
        parse_cluster_error-text kind slot (display (new_server host port)) h m,
        from_parts-display host server.host port l k,
      )
      (refl, refl, refl, refl)
