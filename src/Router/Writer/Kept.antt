-- ===== src/Router/Writer/Kept.antt =====
-- About `write_command` and `check_final_write_attempt` of src/router/utils.rs: where the commands go.
use fred_rs.Prelude.{
  ◌≡◌, refl, Bool, false, Option, none, some, List, [], ◌∷◌, ◌++◌, Bool-cases, inl, inr,
}
use fred_rs.Error.{RedisError, Result, ok, err}
use fred_rs.Command.Request.{RedisCommand, has_no_responses, should_send_write_error}
use fred_rs.Router.Writer.{
  Client, Writer, Written, Outside, Answers, write_command, write_frame, push_command, pop_back,
  disconnected, fed_result, prepared, unhindered, after_feed, Backpressure,
}

-- The commands that are handed back to the router, and those whose callers are answered.
abbrev pub held : Written → List RedisCommand
held (Written.backpressure c b) = c ∷ []
held (Written.disconnect server (some c) e) = c ∷ []
held (Written.disconnect server none e) = []
held (Written.sync c) = c ∷ []
held (Written.sent server flushed) = []
held Written.sent_all = []
held Written.ignore = []

abbrev pub answered : Answers → List RedisCommand
answered [] = []
answered ((c, r) ∷ rest) = c ∷ answered rest

pop_back-snoc : (cs : List RedisCommand) (c : RedisCommand) → pop_back (cs ++ c ∷ []) ≡ some (cs, c)
unfolding pop_back
pop_back-snoc [] c = refl
pop_back-snoc (d ∷ cs) c = rw (pop_back-snoc cs c) refl

-- Where one command goes in a write: last into the queue, or back to the router, or its caller is answered; and the commands
-- that were in the queue stay as they were. The lists are the queue afterwards, what is handed back, and what is answered.
pub data IsSettled (before : List RedisCommand) (c : RedisCommand)
    : List RedisCommand → List RedisCommand → List RedisCommand → Type 0 where
  queued : IsSettled before c (before ++ c ∷ []) [] []
  handed_back : IsSettled before c before (c ∷ []) []
  told : IsSettled before c before [] (c ∷ [])

module _ (client : Client) where
  abbrev pub Settles : List RedisCommand → RedisCommand → Writer × Answers × Written → Type 0
  Settles before c r = IsSettled before c r.0.buffer (held r.2) (answered r.1)

  disconnected-Settles :
      (writer : Writer) (c : RedisCommand) (e : RedisError)
      → Settles writer.buffer c (disconnected client writer c e [])
  disconnected-Settles writer c e =
      elim (Bool-cases (should_send_write_error client.max_command_attempts client.has_policy c)) [
        | inl q ↦ rw (q) told
        | inr q ↦ rw (q) handed_back
      ]

  fed-Settles :
      (flush : Bool) (command : RedisCommand) (before : List RedisCommand) (r : Result (Unit {0}))
      (w : Writer)
      → w.buffer ≡ before ++ command ∷ []
      → Settles before command (fed_result client flush [] (w, r))
  fed-Settles flush command before (ok u) w h = rw (h) queued
  fed-Settles flush command before (err e) w h =
      rw (h, pop_back-snoc before command)
        (disconnected-Settles (record w { buffer = before }) command e)

  write_frame-buffer :
      (outside : Outside) (flush : Bool) (writer : Writer)
      → (write_frame outside flush writer).0.buffer ≡ writer.buffer
  unfolding write_frame
  write_frame-buffer outside flush writer = elim (Bool-cases outside.is_working) [
    | inl q ↦ rw (q) (after_feed-buffer outside.fed)
    | inr q ↦ rw (q) refl
  ]
    where
      after_feed-buffer :
          (r : Result (Unit {0})) → (after_feed flush r writer).0.buffer ≡ writer.buffer
      after_feed-buffer (ok u) = refl
      after_feed-buffer (err e) = refl

  prepared-Settles :
      (outside : Outside) (command : RedisCommand) (force_flush : Bool) (r : Result (Unit {0}))
      (writer : Writer)
      → has_no_responses command ≡ false
      → Settles writer.buffer command (prepared client outside command force_flush r writer)
  unfolding push_command
  prepared-Settles outside command force_flush (err e) writer h = told
  prepared-Settles outside command force_flush (ok u) writer h = rw (h) (
      fed-Settles _ command writer.buffer _ _
        (write_frame-buffer outside _ (record writer { buffer = writer.buffer ++ command ∷ [] })))

  unhindered-Settles :
      (outside : Outside) (command : RedisCommand) (force_flush : Bool)
      (r : Result (Option Backpressure)) (writer : Writer)
      → has_no_responses command ≡ false
      → Settles writer.buffer command (unhindered client outside command force_flush r writer)
  unhindered-Settles outside command force_flush (ok (some b)) writer h = handed_back
  unhindered-Settles outside command force_flush (err e) writer h = told
  unhindered-Settles outside command force_flush (ok none) writer h =
      prepared-Settles outside command force_flush outside.encoded writer h

  -- Writing a command that expects a response and has not timed out never loses or doubles one: the commands that were in the
  -- queue stay there as they were, and the command is either last in the queue, or handed back to the router, or its caller
  -- is answered, and no other command is handed back or answered.
  pub write_command-kept :
      (outside : Outside) (command : RedisCommand) (force_flush : Bool) (writer : Writer)
      → outside.timed_out ≡ false
      → has_no_responses command ≡ false
      → Settles writer.buffer command (write_command client outside command force_flush writer)
  unfolding write_command
  write_command-kept outside command force_flush writer t h =
      simp (t) (unhindered-Settles outside command force_flush _ writer h)
