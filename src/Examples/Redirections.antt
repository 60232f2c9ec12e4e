-- ===== src/Examples/Redirections.antt =====
-- Redirections, changes of a cluster, and commands that are written again.
use fred_rs.Prelude.{◌≡◌, refl, none, false, not, ◌&&◌, some, List, [], ◌∷◌, arith}
use fred_rs.Error.{RedisErrorKind, RedisError, ok}
use fred_rs.Text.{Str, to_string}
use fred_rs.Machine.{debug, done, u32_add}
use fred_rs.Cluster.Types.{Server}
use fred_rs.Cluster.Address.{new_server, ClusterErrorKind, parse_cluster_error, display, host_or}
use fred_rs.Cluster.Address.Roundtrip.{redirection_text, parse_cluster_error-text}
use fred_rs.Router.Redirection.Errors.{
  process_cluster_error, Delivery, Channel, process_cluster_error-display,
}
use fred_rs.Command.Policy.{is_all_cluster_nodes, closes_connection}
use fred_rs.Command.Request.{RedisCommand, incr_check_attempted}
use fred_rs.Command.Request
use fred_rs.Router.Writer.{Written}
use fred_rs.Router.Commands.{Attempt, Wire, Fate}
use fred_rs.Router.Commands
use fred_rs.Router.Retry.{replay, retry_buffer, skipping, retry_buffer-forgets}
use fred_rs.Router.Redirection.{contains, parse_cluster_changes}
use fred_rs.Router.Redirection.Changes.{parse_cluster_changes_lem, is_primary}
use fred_rs.Router.Direct.{Directly, Ends, process_ask, process_moved, process_ask-Ends}
use fred_rs.Examples.Routing.{host, table}
use fred_rs.Examples.Writes.{server, settings, wire_of, get_command, lone}

abbrev broken : RedisError
broken = record { kind = RedisErrorKind.io; details = [] }

-- Each write loses the connection and gives the command back.
abbrev losing : Wire (Unit {0})
losing = wire_of (λ c. Attempt.wrote (Written.disconnect server (some c) broken))

abbrev once : RedisCommand
once = record (skipping losing settings debug (λ c. false) get_command) { attempted = 1 }

losing-replay :
    replay losing settings debug (λ c. false) (get_command ∷ []) tt ≡ done (tt, [], some once)
unfolding replay Commands.write_command incr_check_attempted u32_add Request.new
    is_all_cluster_nodes closes_connection
losing-replay = refl

retry_buffer-forgets_example :
    retry_buffer losing settings debug (λ c. false) (get_command ∷ lone ∷ lone ∷ []) tt
    ≡ done (tt, Fate.buffered once ∷ [])
retry_buffer-forgets_example =
    retry_buffer-forgets losing settings debug (λ c. false) (get_command ∷ []) (lone ∷ lone ∷ []) tt
      tt [] once losing-replay

parse_cluster_error-text_example :
    parse_cluster_error (redirection_text ClusterErrorKind.ask 3999 host)
    ≡ ok (ClusterErrorKind.ask, 3999, host)
parse_cluster_error-text_example =
    parse_cluster_error-text ClusterErrorKind.ask 3999 host (omega arith) (refl, tt)

abbrev connected : List Server
connected = new_server host 30001 ∷ new_server host 30009 ∷ []

parse_cluster_changes_example :
    (contains (parse_cluster_changes table connected).add (new_server host 30009) ≡ (
      is_primary table.slots (new_server host 30009)
      && not (contains connected (new_server host 30009))))
    × (contains (parse_cluster_changes table connected).remove (new_server host 30009) ≡ (
        contains connected (new_server host 30009)
        && not (is_primary table.slots (new_server host 30009))))
parse_cluster_changes_example = parse_cluster_changes_lem table connected (new_server host 30009)

-- The write never succeeds.
abbrev unwritable : Directly (Unit {0})
unwritable = record {
  send_asking = λ s to slot. (ok tt, s);
  sync_cluster = λ s. (ok tt, s);
  write_direct = λ s c to. (some (broken, c), s);
}

process_ask-Ends_example :
    Ends unwritable 3 debug server (process_ask unwritable 3 debug server 4 12 get_command tt)
    × Ends unwritable 3 debug server (process_moved unwritable 3 debug server 4 12 get_command tt)
unfolding Request.new
process_ask-Ends_example =
    process_ask-Ends unwritable 3 debug server (omega arith) (omega arith) (λ s c. refl) 12
      get_command tt (omega arith)

abbrev moved_text : Str
moved_text = redirection_text ClusterErrorKind.moved 12 (display (new_server host 30001))

process_cluster_error-display_example :
    (process_cluster_error Channel.missing server get_command (some moved_text)
      ≡ Delivery.to_queue ClusterErrorKind.moved 12
          (new_server (host_or host server.host) 30001)
          (record get_command { use_replica = false }))
    × (process_cluster_error Channel.listening server get_command (some moved_text)
        ≡ Delivery.to_router ClusterErrorKind.moved 12
            (new_server (host_or host server.host) 30001)
            (record get_command { use_replica = false }))
    × (process_cluster_error Channel.closed server
          (record get_command { transaction_id = none })
          (some moved_text)
        ≡ Delivery.to_queue ClusterErrorKind.moved 12
            (new_server (host_or host server.host) 30001)
            (record get_command { use_replica = false; transaction_id = none }))
    × (process_cluster_error Channel.closed server
          (record get_command { transaction_id = some 7 })
          (some moved_text)
        ≡ Delivery.dropped)
unfolding display to_string
process_cluster_error-display_example =
    process_cluster_error-display server get_command ClusterErrorKind.moved 12 host 30001 7
      (omega arith) (omega arith) (refl, tt)
      (refl, (refl, (refl, (refl, (refl, (refl, (refl, tt)))))))
