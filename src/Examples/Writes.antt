-- ===== src/Examples/Writes.antt =====
-- Commands written to a connection, and the loop around that.
use fred_rs.Prelude.{◌≡◌, refl, true, false, some, List, [], ◌∷◌, arith, ◌+◌, if◌then◌else◌}
use fred_rs.Error.{RedisErrorKind, Result, ok, err}
use fred_rs.Machine.{debug, release, done, u32_add}
use fred_rs.Cluster.Types.{Server}
use fred_rs.Cluster.Address.{new_server}
use fred_rs.Command.Kind.{RedisCommandKind}
use fred_rs.Command.Policy.{is_all_cluster_nodes, closes_connection}
use fred_rs.Command.Request.{
  RedisCommand, has_no_responses, should_auto_pipeline, blocks_connection, incr_check_attempted,
}
use fred_rs.Command.Request
use fred_rs.Router.Writer.{
  Client, Writer, Written, Outside, Backpressure, BackpressurePolicy, write_command,
}
use fred_rs.Router.Writer.Kept.{Settles, write_command-kept}
use fred_rs.Router.Writer.Flushing.{IsModest, write_command-IsModest}
use fred_rs.Router.Commands.{
  Attempt, Response, Wire, Settings, Fate, write_with_backpressure, write_from, round, write_once,
}
use fred_rs.Router.Commands
use fred_rs.Router.Commands.Ending.{write_with_backpressure-ends}
use fred_rs.Router.Commands.Fates.{AtMostOne}
use fred_rs.Router.Commands.Answers.{write_with_backpressure-AtMostOne}
use fred_rs.Router.Commands.Waiting.{IsRefused, write_with_backpressure-IsRefused}
use fred_rs.Examples.Routing.{host}

abbrev pub server : Server
server = new_server host 7000

abbrev client : Client
client = record {
  backpressure = record {
    disable_auto_backpressure = false;
    max_in_flight_commands = 5;
    policy = BackpressurePolicy.drain;
  };
  max_feed_count = 2;
  max_command_attempts = 3;
  has_policy = true;
}

abbrev pub get_command : RedisCommand
get_command = Request.new RedisCommandKind.get []

abbrev unsubscribe_all : RedisCommand
unsubscribe_all = Request.new RedisCommandKind.unsubscribe []

-- The connection is closed.
abbrev closed : Outside
closed = record {
  timed_out = false;
  has_router_channel = false;
  encoded = ok tt;
  is_working = false;
  fed = ok tt;
}

abbrev waiting : Writer
waiting = record {
  server = server;
  counters = record { cmd_buffer_len = 1; in_flight = 1; feed_count = 1 };
  buffer = get_command ∷ [];
}

abbrev idle : Writer
idle = record {
  server = server;
  counters = record { cmd_buffer_len = 1; in_flight = 0; feed_count = 1 };
  buffer = [];
}

write_command-kept_example :
    Settles client
      (get_command ∷ [])
      get_command
      (write_command client closed get_command false waiting)
unfolding has_no_responses Request.new
write_command-kept_example = write_command-kept client closed get_command false waiting refl refl

write_command-IsModest_example :
    IsModest client
      (write_command client
        (record closed { is_working = true })
        get_command
        false
        waiting).0.counters
unfolding Request.new
write_command-IsModest_example =
    write_command-IsModest client (record closed { is_working = true }) get_command false waiting
      (omega arith) (omega arith) refl (omega arith, omega arith)

abbrev pub settings : Settings
settings = record {
  max_command_attempts = 3;
  is_pipelined = true;
  is_clustered = false;
  primary_fallback = false;
}

-- Connections that do with each command what `write` says.
abbrev pub wire_of : (RedisCommand → Attempt) → Wire (Unit {0})
wire_of write = record {
  write_command = λ s c. (write c, s);
  write_all_cluster = λ s c. (ok Written.sent_all, s);
  write_replica = λ s primary c. (write c, s);
  find_connection = λ s c. some server;
  response =
      λ s c. (Response.connection_closed (record { kind = RedisErrorKind.io; details = [] }) c, s);
  owns_slot = λ s slot owner. true;
  send_asking = λ s to slot. (ok tt, s);
  sync_cluster = λ s. (ok tt, s);
  reconnect = λ s. (ok tt, s);
  wait = λ s ms. (ok tt, s);
  disconnect = λ s from. s;
  disconnect_all = λ s. s;
  disconnect_replicas = λ s. s;
  flush = λ s. s;
  flush_replicas = λ s. s;
  set_blocked = λ s on. s;
  interrupt_if_queued = λ s. s;
}

-- Each command is sent, and the connection closes before it is answered.
abbrev closing : Wire (Unit {0})
closing = wire_of (λ c. Attempt.wrote (Written.sent server true))

abbrev slow : Wire (Unit {0})
slow = wire_of (λ c.
    if c.skip_backpressure
    then Attempt.wrote (Written.sent server true)
    else Attempt.wrote (Written.backpressure c (Backpressure.wait (50 + c.attempted))))

-- The wait grows with the attempts; a command that skips backpressure is sent.
slow-hinders :
    (c : RedisCommand)
    → c.skip_backpressure ≡ false
    → (slow.write_command tt c).0
      ≡ Attempt.wrote (Written.backpressure c (Backpressure.wait (50 + c.attempted)))
slow-hinders c h = rw (h) refl

abbrev pub lone : RedisCommand
lone = record get_command { pipelined = false }

write_with_backpressure-ends_example :
    (r : Unit × List Fate × Result Unit) × (write_with_backpressure closing settings debug 4 lone
        false tt
      ≡ done r)
unfolding Request.new
write_with_backpressure-ends_example =
    write_with_backpressure-ends closing settings debug (omega arith) (omega arith) (λ s c. tt)
      (λ s c. tt) (λ s to c. tt) (λ s c. refl) lone false tt (omega arith)

-- The third time the caller is told.
abbrev told : List Fate
told =
    Fate.answered (record lone { attempted = 3 })
      (err (record { kind = RedisErrorKind.io; details = [] }))
    ∷ []

closing_run :
    write_with_backpressure closing settings debug 4 lone false tt ≡ done (tt, told, ok tt)
unfolding write_with_backpressure write_from round write_once Commands.write_command
    Commands.handle_router_response should_auto_pipeline blocks_connection incr_check_attempted
    u32_add Request.new is_all_cluster_nodes closes_connection
closing_run = refl

write_with_backpressure-AtMostOne_example : AtMostOne told
write_with_backpressure-AtMostOne_example =
    write_with_backpressure-AtMostOne closing settings debug 4 lone false tt tt told (ok tt)
      closing_run

write_with_backpressure-IsRefused_example :
    IsRefused (write_with_backpressure slow settings release 4 lone false tt)
unfolding Request.new is_all_cluster_nodes closes_connection
write_with_backpressure-IsRefused_example =
    write_with_backpressure-IsRefused slow settings release (λ s c. 50 + c.attempted) (omega arith)
      (omega arith) (λ s c. slow-hinders c) (λ s ms. refl) lone false tt (refl, refl, refl) refl
