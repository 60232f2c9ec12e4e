-- ===== src/Responses.antt =====
-- src/protocol/responders.rs: how response frames reach the caller. A frame is a value of the redis-protocol crate, which
-- is a parameter: the functions of it that are used here.
pub mod Buffered
pub mod Repeated
use fred_rs.Prelude.{
  ℕ, zero, suc, ◌+◌, ◌-◌, ◌%◌, min, String, Bool, true, false, Option, none, some, List, [], ◌∷◌,
  ◌++◌, length, ltb, leb, ◌==◌, if◌then◌else◌,
}
use fred_rs.Text.{Str, text, bytes_eq, split_whitespace}
use fred_rs.Error.{RedisErrorKind, RedisError, Result, ok, err, fail}
use fred_rs.Machine.{usize_bound}
use fred_rs.Command.Request.{Sender}

-- `elements` is what an array or a push carries, `error_text` the text of an error; `as_str` answers for text.
pub record FrameOps {ℓ} (Frame : Type ℓ) : Type ℓ where
  pub is_error : Frame → Bool
  pub elements : Frame → Option (List Frame)
  pub as_str : Frame → Option Str
  pub error_text : Frame → Option Str
  pub array : List Frame → Frame
  pub null : Frame

abbrev first_word : List Str → Str
first_word [] = []
first_word (w ∷ ws) = w

abbrev second_word : List Str → Str
second_word [] = []
second_word (w ∷ ws) = first_word ws

-- The first of the kinds whose words hold the word.
abbrev kind_in : List (String × RedisErrorKind) → RedisErrorKind → Str → RedisErrorKind
kind_in [] other word = other
kind_in (e ∷ table) other word = if bytes_eq (text e.0) word then e.1 else kind_in table other word

unfoldable kind_of_invalid : Str → RedisErrorKind
kind_of_invalid =
    kind_in
      (("argument(s)", RedisErrorKind.invalid_argument)
        ∷ ("Argument", RedisErrorKind.invalid_argument)
        ∷ ("command", RedisErrorKind.invalid_command)
        ∷ ("Command", RedisErrorKind.invalid_command)
        ∷ [])
      RedisErrorKind.unknown

unfoldable kind_of_words : List Str → RedisErrorKind
unfolding kind_of_invalid
kind_of_words words =
    if bytes_eq (first_word words) (text "Invalid")
    then kind_of_invalid (second_word words)
    else kind_in
        (("ERR", RedisErrorKind.unknown)
          ∷ ("WRONGTYPE", RedisErrorKind.invalid_argument)
          ∷ ("NOAUTH", RedisErrorKind.auth)
          ∷ ("WRONGPASS", RedisErrorKind.auth)
          ∷ ("MOVED", RedisErrorKind.cluster)
          ∷ ("ASK", RedisErrorKind.cluster)
          ∷ ("CLUSTERDOWN", RedisErrorKind.cluster)
          ∷ [])
        RedisErrorKind.unknown (first_word words)

abbrev or_no_response : Str → Str
or_no_response [] = text "No response!"
or_no_response (c ∷ cs) = c ∷ cs

-- `pretty_error` of src/protocol/utils.rs.
unfoldable pub pretty_error : Str → RedisError
unfolding kind_of_words
pretty_error resp = record {
  kind = kind_of_words (split_whitespace resp);
  details = or_no_response resp;
}

-- `incr_atomic` of src/utils.rs: the cell wraps around, the returned count saturates.
unfoldable pub incr_atomic : ℕ → ℕ × ℕ
incr_atomic n = ((n + 1) % usize_bound, min (n + 1) (usize_bound - 1))

-- The cells that the clones of one `Buffer` or `Multiple` share: `frames`, `received` and `tx`.
pub record Shared {ℓ} (Frame : Type ℓ) : Type ℓ where
  pub frames : List Frame
  pub received : ℕ
  pub tx : Option Sender

-- What a handler does: the messages it sends, whether it unblocks the router, whether the command goes back to the
-- front of its queue, and what it returns.
pub record Handled {ℓ} (Frame : Type ℓ) : Type ℓ where
  pub shared : Shared Frame
  pub sent : List (Sender × Result Frame)
  pub unblocks : Bool
  pub requeues : Bool
  pub result : Result (Unit {0})

module _ {ℓ} {Frame : Type ℓ} where
  -- `buffer_ref[index] = frame`, within the bounds.
  abbrev pub set_at : List Frame → ℕ → Frame → List Frame
  set_at [] index frame = []
  set_at (f ∷ fs) zero frame = frame ∷ fs
  set_at (f ∷ fs) (suc index) frame = f ∷ set_at fs index frame

  unfoldable pub add_buffered_frame : List Frame → ℕ → Frame → Result (List Frame)
  add_buffered_frame buffer index frame =
      if leb (length buffer) index
      then fail RedisErrorKind.unknown "Invalid buffer response index."
      else ok (set_at buffer index frame)

  -- `respond_locked`: the first response takes the sender.
  abbrev pub respond_locked : Option Sender → Result Frame → List (Sender × Result Frame)
  respond_locked none result = []
  respond_locked (some tx) result = (tx, result) ∷ []

  module _ (ops : FrameOps Frame) where
    abbrev pub repeat : ℕ → List Frame
    repeat zero = []
    repeat (suc n) = ops.null ∷ repeat n

    -- `ResponseKind::new_buffer_with_size`
    unfoldable pub new_buffer_with_size : ℕ → Sender → Shared Frame
    new_buffer_with_size expected tx = record {
      frames = repeat expected;
      received = 0;
      tx = some tx;
    }

    abbrev pub flatten : Frame → List Frame
    flatten frame = elim (ops.elements frame) [ none ↦ frame ∷ [] | some inner ↦ inner ]

    merge_into : List Frame → List Frame → Frame
    merge_into out [] = ops.array out
    merge_into out (f ∷ fs) =
        let rest = merge_into (out ++ flatten f) fs in if ops.is_error f then f else rest

    -- `merge_multiple_frames`, which also drains the frames.
    unfoldable pub merge_multiple_frames : List Frame → Frame
    unfolding merge_into
    merge_multiple_frames frames = merge_into [] frames

    abbrev error_of : Option Str → RedisError
    error_of none = record {
      kind = RedisErrorKind.unknown;
      details = text "Unknown or invalid error from buffered frames.";
    }
    error_of (some s) = pretty_error s

    abbrev pub merged : Frame → Result Frame
    merged frame = if ops.is_error frame then err (error_of (ops.as_str frame)) else ok frame

    abbrev pub counted : ℕ → Shared Frame → List Frame → ℕ × ℕ → Handled Frame
    counted expected s frames received =
        if received.1 == expected
        then record {
          shared = record { frames = []; received = received.0; tx = none };
          sent = respond_locked s.tx (merged (merge_multiple_frames frames));
          unblocks = true;
          requeues = false;
          result = ok tt;
        }
        else record {
          shared = record s { frames = frames; received = received.0 };
          sent = [];
          unblocks = false;
          requeues = false;
          result = ok tt;
        }

    abbrev pub buffered : ℕ → Shared Frame → Result (List Frame) → Handled Frame
    buffered expected s (err e) = record {
      shared = record s { tx = none };
      sent = respond_locked s.tx (err e);
      unblocks = true;
      requeues = false;
      result = fail RedisErrorKind.unknown "Invalid buffer response index.";
    }
    buffered expected s (ok frames) = counted expected s frames (incr_atomic s.received)

    -- `respond_buffer`
    unfoldable pub respond_buffer : (expected index : ℕ) → Shared Frame → Frame → Handled Frame
    unfolding add_buffered_frame merge_multiple_frames
    respond_buffer expected index s frame =
        buffered expected s (add_buffered_frame s.frames index frame)

    -- `frame_to_error(&frame).unwrap_or(RedisError::new_canceled())`
    abbrev pub frame_error : Frame → RedisError
    frame_error frame = elim (ops.error_text frame) [
      | none ↦ record { kind = RedisErrorKind.canceled; details = text "Canceled." }
      | some s ↦ pretty_error s
    ]

    abbrev pub last_or_more : ℕ → Shared Frame → Frame → ℕ × ℕ → Handled Frame
    last_or_more expected s frame received =
        if received.1 == expected
        then record {
          shared = record s { received = received.0; tx = none };
          sent = respond_locked s.tx (ok frame);
          unblocks = true;
          requeues = false;
          result = ok tt;
        }
        else record {
          shared = record s { received = received.0 };
          sent = [];
          unblocks = false;
          requeues = true;
          result = ok tt;
        }

    -- `respond_multiple`
    unfoldable pub respond_multiple : (expected : ℕ) → Shared Frame → Frame → Handled Frame
    respond_multiple expected s frame =
        if ops.is_error frame
        then record {
          shared = record s { tx = none };
          sent = respond_locked s.tx (err (frame_error frame));
          unblocks = true;
          requeues = false;
          result = ok tt;
        }
        else last_or_more expected s frame (incr_atomic s.received)
