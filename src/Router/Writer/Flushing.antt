-- ===== src/Router/Writer/Flushing.antt =====
-- About `write_command` of src/router/utils.rs: how far the counters of a connection rise.
use fred_rs.Prelude.{
  ◌+◌, ◌≤◌, ◌<◌, ◌≡◌, refl, sym, subst, Bool, true, false, ◌||◌, Option, none, some, List,
  Bool-cases, inl, inr, arith,
}
use fred_rs.Machine.{usize_bound}
use fred_rs.Error.{RedisError, Result, ok, err}
use fred_rs.Responses.{incr_atomic}
use fred_rs.Command.Request.{RedisCommand, has_no_responses, should_send_write_error}
use fred_rs.Router.Writer.{
  Client, Counters, Writer, Outside, Answers, write_command, write_frame, push_command, pop_back,
  check_backpressure, disconnected, fed_result, push_and_write, prepared, unhindered, taken_back,
  after_feed, flushes, should_send, Backpressure,
}

module _ (client : Client) where
  abbrev pub IsModest : Counters → Type 0
  IsModest counters =
      (counters.feed_count ≤ client.max_feed_count + 1)
      × (counters.in_flight ≤ client.backpressure.max_in_flight_commands + 1)

  disconnected_counters :
      (writer : Writer) (c : RedisCommand) (e : RedisError) (answers : Answers)
      → (disconnected client writer c e answers).0.counters ≡ writer.counters
  disconnected_counters writer c e answers =
      elim (Bool-cases (should_send_write_error client.max_command_attempts client.has_policy c)) [
        | inl q ↦ rw (q) refl
        | inr q ↦ rw (q) refl
      ]

  fed_result-counters :
      (flush : Bool) (answers : Answers) (w : Writer) (r : Result (Unit {0}))
      → (fed_result client flush answers (w, r)).0.counters ≡ w.counters
  fed_result-counters flush answers w (ok u) = refl
  fed_result-counters flush answers w (err e) = taken_back-counters (pop_back w.buffer)
    where
      taken_back-counters :
          (o : Option (List RedisCommand × RedisCommand))
          → (taken_back client o w e answers).0.counters ≡ w.counters
      taken_back-counters none = refl
      taken_back-counters (some (front, c)) =
          disconnected_counters (record w { buffer = front }) c e answers

  push_command-counters :
      (command : RedisCommand) (writer : Writer)
      → (push_command command writer).0.counters ≡ writer.counters
  unfolding push_command
  push_command-counters command writer = elim (Bool-cases (has_no_responses command)) [
    | inl q ↦ rw (q) refl
    | inr q ↦ rw (q) refl
  ]

  -- What is not flushed leaves room for one more command, and what is in flight too.
  after_feed-IsModest :
      (flush : Bool) (r : Result (Unit {0})) (writer : Writer)
      → client.max_feed_count + 1 < usize_bound
      → client.backpressure.max_in_flight_commands + 1 < usize_bound
      → IsModest writer.counters
      → writer.counters.in_flight ≤ client.backpressure.max_in_flight_commands
      → (flush ≡ false → writer.counters.feed_count ≤ client.max_feed_count)
      → IsModest (after_feed flush r writer).0.counters
  unfolding incr_atomic
  after_feed-IsModest flush (err e) writer b c h i f = h
  after_feed-IsModest true (ok u) writer b c h i f = (omega arith, omega arith)
  after_feed-IsModest false (ok u) writer b c h i f =
      let f' : writer.counters.feed_count ≤ client.max_feed_count = f refl in
      (omega arith, omega arith)

  write_frame-IsModest :
      (outside : Outside) (flush : Bool) (writer : Writer)
      → client.max_feed_count + 1 < usize_bound
      → client.backpressure.max_in_flight_commands + 1 < usize_bound
      → IsModest writer.counters
      → writer.counters.in_flight ≤ client.backpressure.max_in_flight_commands
      → (flush ≡ false → writer.counters.feed_count ≤ client.max_feed_count)
      → IsModest (write_frame outside flush writer).0.counters
  unfolding write_frame
  write_frame-IsModest outside flush writer b c h i f = elim (Bool-cases outside.is_working) [
    | inl q ↦ simp (q) (after_feed-IsModest flush outside.fed writer b c h i f)
    | inr q ↦ simp (q) h
  ]

  flushes_when_due :
      (outside : Outside) (counters : Counters) (command : RedisCommand) (force_flush : Bool)
      → (flushes client outside counters command || force_flush) ≡ false
      → counters.feed_count ≤ client.max_feed_count
  unfolding flushes should_send
  flushes_when_due outside counters command force_flush h = ground arith

  push_and_write-IsModest :
      (outside : Outside) (flush : Bool) (pushed : Writer × Answers)
      → client.max_feed_count + 1 < usize_bound
      → client.backpressure.max_in_flight_commands + 1 < usize_bound
      → IsModest pushed.0.counters
      → pushed.0.counters.in_flight ≤ client.backpressure.max_in_flight_commands
      → (flush ≡ false → pushed.0.counters.feed_count ≤ client.max_feed_count)
      → IsModest (push_and_write client outside flush pushed).0.counters
  push_and_write-IsModest outside flush (writer, answers) b c h i f =
      let r = write_frame outside flush writer in
      subst IsModest (sym (fed_result-counters flush answers r.0 r.1))
        (write_frame-IsModest outside flush writer b c h i f)

  prepared-IsModest :
      (outside : Outside) (command : RedisCommand) (force_flush : Bool) (r : Result (Unit {0}))
      (writer : Writer)
      → client.max_feed_count + 1 < usize_bound
      → client.backpressure.max_in_flight_commands + 1 < usize_bound
      → IsModest writer.counters
      → writer.counters.in_flight ≤ client.backpressure.max_in_flight_commands
      → IsModest (prepared client outside command force_flush r writer).0.counters
  prepared-IsModest outside command force_flush (err e) writer b c h i = h
  prepared-IsModest outside command force_flush (ok u) writer b c h i =
      let same = push_command-counters command writer in
      push_and_write-IsModest outside _ (push_command command writer) b c (rw (same) h)
        (rw (same) i)
        (λ n. rw (same) (flushes_when_due outside writer.counters command force_flush n))

  unhindered-IsModest :
      (outside : Outside) (command : RedisCommand) (force_flush : Bool)
      (r : Result (Option Backpressure)) (writer : Writer)
      → check_backpressure client.backpressure writer.counters command ≡ r
      → client.max_feed_count + 1 < usize_bound
      → client.backpressure.max_in_flight_commands + 1 < usize_bound
      → command.skip_backpressure ≡ false
      → IsModest writer.counters
      → IsModest (unhindered client outside command force_flush r writer).0.counters
  unfolding check_backpressure
  unhindered-IsModest outside command force_flush (ok (some p)) writer e b c s h = h
  unhindered-IsModest outside command force_flush (err x) writer e b c s h = h
  unhindered-IsModest outside command force_flush (ok none) writer e b c s h =
      prepared-IsModest outside command force_flush outside.encoded writer b c h (ground arith)

  -- Commands that respect the backpressure keep the counters of a connection bounded: never more than `max_feed_count + 1`
  -- commands since the last flush, and never more than `max_in_flight_commands + 1` in flight, as long as those two fit
  -- into a `usize`.
  pub write_command-IsModest :
      (outside : Outside) (command : RedisCommand) (force_flush : Bool) (writer : Writer)
      → client.max_feed_count + 1 < usize_bound
      → client.backpressure.max_in_flight_commands + 1 < usize_bound
      → command.skip_backpressure ≡ false
      → IsModest writer.counters
      → IsModest (write_command client outside command force_flush writer).0.counters
  unfolding write_command
  write_command-IsModest outside command force_flush writer b c s h =
      elim (Bool-cases outside.timed_out) [
        | inl q ↦ simp (q) h
        | inr q ↦ simp (q) (unhindered-IsModest outside command force_flush _ writer refl b c s h)
      ]
