-- ===== src/Router/Writer.antt =====
-- Writing a command to a connection: `write_command` and what it calls in src/router/utils.rs, the counters and the queue of
-- `RedisWriter` in src/protocol/connection.rs. What the socket and the encoder answer is an argument.
pub mod Kept
pub mod Flushing
use fred_rs.Prelude.{
  ℕ, zero, suc, ◌+◌, ◌%◌, max, Bool, true, false, ◌||◌, ◌&&◌, ◌==◌, Option, none, some, List, [],
  ◌∷◌, ◌++◌, ltb, leb, if◌then◌else◌,
}
use fred_rs.Error.{RedisErrorKind, RedisError, Result, ok, err, fail}
use fred_rs.Text.{text}
use fred_rs.Responses.{incr_atomic}
use fred_rs.Cluster.Types.{Server}
use fred_rs.Command.Policy.{should_flush, is_all_cluster_nodes}
use fred_rs.Command.Request.{RedisCommand, has_no_responses, should_send_write_error}

pub data BackpressurePolicy : Type 0 where
  drain : BackpressurePolicy
  sleep : (disable_backpressure_scaling : Bool) (min_sleep_duration_ms : ℕ) → BackpressurePolicy

-- `BackpressureConfig` of src/types/config.rs.
pub record BackpressureConfig : Type 0 where
  pub disable_auto_backpressure : Bool
  pub max_in_flight_commands : ℕ
  pub policy : BackpressurePolicy

-- `wait` carries milliseconds; the source's `Error` is made nowhere.
pub data Backpressure : Type 0 where
  wait : ℕ → Backpressure
  block : Backpressure

pub record Counters : Type 0 where
  pub cmd_buffer_len : ℕ
  pub in_flight : ℕ
  pub feed_count : ℕ

-- What is read of the client's configuration.
pub record Client : Type 0 where
  pub backpressure : BackpressureConfig
  pub max_feed_count : ℕ
  pub max_command_attempts : ℕ
  pub has_policy : Bool

-- `RedisWriter`: the commands in `buffer` wait for their responses, the oldest first.
pub record Writer : Type 0 where
  pub server : Server
  pub counters : Counters
  pub buffer : List RedisCommand

pub data Written : Type 0 where
  backpressure : RedisCommand → Backpressure → Written
  sent : Server → (flushed : Bool) → Written
  sent_all : Written
  disconnect : Server → Option RedisCommand → RedisError → Written
  ignore : Written
  sync : RedisCommand → Written

-- What the outside does with one command: whether its timeout has passed, whether the router waits for its response, the
-- result of encoding it, whether the connection's reader runs, and the result of `send` or `feed` on the socket.
pub record Outside : Type 0 where
  pub timed_out : Bool
  pub has_router_channel : Bool
  pub encoded : Result (Unit {0})
  pub is_working : Bool
  pub fed : Result (Unit {0})

-- `respond_to_caller`, with a null frame or an error.
abbrev pub Answers : Type 0
Answers = List (RedisCommand × Result (Unit {0}))

abbrev policy_of : BackpressurePolicy → ℕ → Backpressure
policy_of BackpressurePolicy.drain in_flight = Backpressure.block
policy_of (BackpressurePolicy.sleep true min_sleep_duration_ms) in_flight =
    Backpressure.wait min_sleep_duration_ms
policy_of (BackpressurePolicy.sleep false min_sleep_duration_ms) in_flight =
    Backpressure.wait (max min_sleep_duration_ms in_flight)

unfoldable pub check_backpressure :
    BackpressureConfig → Counters → RedisCommand → Result (Option Backpressure)
check_backpressure config counters command =
    if command.skip_backpressure
    then ok none
    else if ltb config.max_in_flight_commands counters.in_flight
    then if config.disable_auto_backpressure
      then fail RedisErrorKind.backpressure "Max in-flight commands reached."
      else ok (some (policy_of config.policy counters.in_flight))
    else ok none

-- `Counters::should_send`.
unfoldable pub should_send : Client → Counters → Bool
should_send client counters =
    ltb client.max_feed_count counters.feed_count || counters.cmd_buffer_len == 0

-- Whether `prepare_command` asks for a flush.
unfoldable pub flushes : Client → Outside → Counters → RedisCommand → Bool
unfolding should_send
flushes client outside counters command =
    should_send client counters
    || should_flush command.kind
    || is_all_cluster_nodes command.kind
    || outside.has_router_channel

abbrev fed_counters : Bool → Counters → Counters
fed_counters true counters = record counters { feed_count = 0 }
fed_counters false counters = record counters { feed_count = (incr_atomic counters.feed_count).0 }

abbrev counted : Counters → Counters
counted counters = record counters { in_flight = (incr_atomic counters.in_flight).0 }

abbrev after_feed : Bool → Result (Unit {0}) → Writer → Writer × Result (Unit {0})
after_feed flush (err e) writer = (writer, err e)
after_feed flush (ok u) writer =
    (record writer { counters = counted (fed_counters flush writer.counters) }, ok u)

unfoldable pub write_frame : Outside → Bool → Writer → Writer × Result (Unit {0})
unfolding incr_atomic
write_frame outside flush writer =
    if outside.is_working
    then after_feed flush outside.fed writer
    else (writer, fail RedisErrorKind.io "Connection closed.")

-- A command without responses is answered in place of being queued.
unfoldable pub push_command : RedisCommand → Writer → Writer × Answers
push_command command writer =
    if has_no_responses command
    then (writer, (command, ok tt) ∷ [])
    else (record writer { buffer = writer.buffer ++ command ∷ [] }, [])

abbrev pub behind :
    RedisCommand → Option (List RedisCommand × RedisCommand) → List RedisCommand × RedisCommand
behind c none = ([], c)
behind c (some (front, last)) = (c ∷ front, last)

-- The commands in front of the most recent one, and that one.
unfoldable pub pop_back : List RedisCommand → Option (List RedisCommand × RedisCommand)
pop_back [] = none
pop_back (c ∷ cs) = some (behind c (pop_back cs))

module _ (client : Client) where
  abbrev disconnected : Writer → RedisCommand → RedisError → Answers → Writer × Answers × Written
  disconnected writer command e answers =
      if should_send_write_error client.max_command_attempts client.has_policy command
      then (writer, answers ++ (command, err e) ∷ [], Written.disconnect writer.server none e)
      else (writer, answers, Written.disconnect writer.server (some command) e)

  -- The command that is taken back is the most recent of the queue.
  abbrev taken_back :
      Option (List RedisCommand × RedisCommand)
      → Writer
      → RedisError
      → Answers
      → Writer × Answers × Written
  taken_back none writer e answers = (writer, answers, Written.ignore)
  taken_back (some (front, command)) writer e answers =
      disconnected (record writer { buffer = front }) command e answers

  abbrev fed_result : Bool → Answers → Writer × Result (Unit {0}) → Writer × Answers × Written
  fed_result flush answers (writer, ok u) = (writer, answers, Written.sent writer.server flush)
  fed_result flush answers (writer, err e) = taken_back (pop_back writer.buffer) writer e answers

  abbrev push_and_write : Outside → Bool → Writer × Answers → Writer × Answers × Written
  push_and_write outside flush (writer, answers) =
      fed_result flush answers (write_frame outside flush writer)

  abbrev prepared :
      Outside → RedisCommand → Bool → Result (Unit {0}) → Writer → Writer × Answers × Written
  prepared outside command force_flush (err e) writer =
      (writer, (command, err e) ∷ [], Written.ignore)
  prepared outside command force_flush (ok u) writer =
      push_and_write outside (flushes client outside writer.counters command || force_flush)
        (push_command command writer)

  abbrev unhindered :
      Outside
      → RedisCommand
      → Bool
      → Result (Option Backpressure)
      → Writer
      → Writer × Answers × Written
  unhindered outside command force_flush (ok (some b)) writer =
      (writer, [], Written.backpressure command b)
  unhindered outside command force_flush (err e) writer =
      (writer, (command, err e) ∷ [], Written.ignore)
  unhindered outside command force_flush (ok none) writer =
      prepared outside command force_flush outside.encoded writer

  unfoldable pub write_command : Outside → RedisCommand → Bool → Writer → Writer × Answers × Written
  unfolding check_backpressure write_frame push_command pop_back flushes should_send_write_error
  write_command outside command force_flush writer =
      if outside.timed_out
      then (writer, [], Written.ignore)
      else unhindered outside command force_flush
          (check_backpressure client.backpressure writer.counters command) writer

  abbrev checked :
      (RedisCommand → Bool)
      → RedisError
      → RedisCommand
      → Answers × List RedisCommand
      → Answers × List RedisCommand
  checked has_router_channel error command (answers, rest) =
      if has_router_channel command && leb client.max_command_attempts command.attempted
      then ((command, err error) ∷ answers, rest)
      else (answers, command ∷ rest)

  abbrev or_closed : Option RedisError → RedisError
  or_closed none = record { kind = RedisErrorKind.io; details = text "Connection Closed" }
  or_closed (some e) = e

  -- The answers, and the commands that stay in the queue.
  unfoldable pub check_final_write_attempt :
      (RedisCommand → Bool) → Option RedisError → List RedisCommand → Answers × List RedisCommand
  check_final_write_attempt has_router_channel error [] = ([], [])
  check_final_write_attempt has_router_channel error (c ∷ cs) =
      checked has_router_channel (or_closed error) c
        (check_final_write_attempt has_router_channel error cs)
