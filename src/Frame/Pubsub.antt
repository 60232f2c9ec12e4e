-- ===== src/Frame/Pubsub.antt =====
-- Messages of the publish-subscribe interface: src/protocol/utils.rs, their types in src/protocol/types.rs, and the tests
-- that send a frame there in src/router/responses.rs and src/router/utils.rs.
pub mod Layout
use fred_rs.Prelude.{
  ℕ, Bool, true, false, ◌&&◌, ◌||◌, ◌==◌, leb, Option, none, some, List, [], ◌∷◌, ◌++◌, reverse,
  length, String, if◌then◌else◌,
}
use fred_rs.Text.{Str, text, bytes_eq}
use fred_rs.Error.{RedisErrorKind, Result, ok, err, fail, ◌>>=◌}
use fred_rs.Value.{RedisValue, Floats}
use fred_rs.Command.Kind.{RedisCommandKind}
use fred_rs.Frame.{Shape, FrameMethods, frames, shapes, frame_to_str}
use fred_rs.Frame.Results.{frame_to_single_result}

pub data MessageKind : Type 0 where
  message p_message s_message : MessageKind

-- `MessageKind::from_str`.
unfoldable pub message_kind_from_str : Str → Option MessageKind
message_kind_from_str s =
    if bytes_eq s (text "message")
    then some MessageKind.message
    else if bytes_eq s (text "pmessage")
    then some MessageKind.p_message
    else if bytes_eq s (text "smessage")
    then some MessageKind.s_message
    else none

pub record Message : Type 0 where
  pub channel : Str
  pub value : RedisValue
  pub kind : MessageKind

-- The data of an array or of a push.
abbrev pub elements : Shape → Option (List Shape)
elements (Shape.array fs) = some (frames fs)
elements (Shape.push fs) = some (frames fs)
elements _ = none

abbrev pub pubsub_push_prefix : Str
pubsub_push_prefix = text "pubsub"

abbrev says : Option Str → Str → Bool
says none word = false
says (some s) word = bytes_eq s word

abbrev either_kind : Option MessageKind → Option MessageKind → Option MessageKind
either_kind none b = b
either_kind (some a) b = some a

abbrev kind_of : Option Str → Option MessageKind
kind_of none = none
kind_of (some s) = message_kind_from_str s

module _ (methods : FrameMethods) (floats : Floats) where
  -- "smessage" at the start, or behind "pubsub".
  unfoldable pub has_shard_prefix : List Shape → Bool
  has_shard_prefix (a ∷ b ∷ rest) =
      (says (methods.as_str a) pubsub_push_prefix && says (methods.as_str b) (text "smessage"))
      || says (methods.as_str a) (text "smessage")
  has_shard_prefix _ = false

  abbrev shard_message : Option Str → Result RedisValue → Option Message
  shard_message none value = none
  shard_message (some channel) (err e) = none
  shard_message (some channel) (ok value) =
      some (record { channel = channel; value = value; kind = MessageKind.s_message })

  -- The elements from the last to the first: the message and its channel come first.
  abbrev shard_fields : List Shape → Option Message
  shard_fields (value ∷ channel ∷ rest) =
      shard_message (frame_to_str channel) (frame_to_single_result methods floats value)
  shard_fields _ = none

  abbrev shard_frames : Option (List Shape) → Option Message
  shard_frames none = none
  shard_frames (some fs) =
      if leb 3 (length fs) && leb (length fs) 5 && has_shard_prefix fs
      then shard_fields (reverse fs)
      else none

  unfoldable pub parse_shard_pubsub_frame : Shape → Option Message
  unfolding has_shard_prefix
  parse_shard_pubsub_frame frame = shard_frames (elements frame)

  unfoldable pub kind_in : List Shape → Option MessageKind
  kind_in (a ∷ b ∷ c ∷ []) = kind_of (methods.as_str a)
  kind_in (a ∷ b ∷ c ∷ d ∷ []) =
      either_kind (kind_of (methods.as_str b)) (kind_of (methods.as_str a))
  kind_in (a ∷ b ∷ c ∷ d ∷ e ∷ []) =
      either_kind (kind_of (methods.as_str b)) (kind_of (methods.as_str c))
  kind_in _ = none

  abbrev or_invalid_kind : Option MessageKind → Result MessageKind
  or_invalid_kind none = fail RedisErrorKind.protocol "Invalid pubsub message kind."
  or_invalid_kind (some k) = ok k

  abbrev kind_in_frame : Option (List Shape) → Result MessageKind
  kind_in_frame none = fail RedisErrorKind.protocol "Invalid pubsub frame type."
  kind_in_frame (some fs) = or_invalid_kind (kind_in fs)

  unfoldable pub parse_message_kind : Shape → Result MessageKind
  unfolding kind_in
  parse_message_kind frame = kind_in_frame (elements frame)

  abbrev or_no_channel : Option Str → Result Str
  or_no_channel none = fail RedisErrorKind.protocol "Failed to parse channel."
  or_no_channel (some channel) = ok channel

  -- The elements from the last to the first.
  abbrev fields : List Shape → Result (Str × RedisValue)
  fields [] = fail RedisErrorKind.protocol "Invalid pubsub message."
  fields (value ∷ []) = fail RedisErrorKind.protocol "Invalid pubsub channel."
  fields (value ∷ channel ∷ rest) = do
    channel' ← or_no_channel (frame_to_str channel)
    value' ← frame_to_single_result methods floats value
    ok (channel', value')

  abbrev fields_in_frame : Option (List Shape) → Result (Str × RedisValue)
  fields_in_frame none = fail RedisErrorKind.protocol "Invalid pubsub frame type."
  fields_in_frame (some fs) = fields (reverse fs)

  unfoldable pub parse_message_fields : Shape → Result (Str × RedisValue)
  parse_message_fields frame = fields_in_frame (elements frame)

  abbrev message_of : Shape → Result Message
  message_of frame = do
    kind ← parse_message_kind frame
    fields ← parse_message_fields frame
    ok (record { channel = fields.0; value = fields.1; kind = kind })

  abbrev or_shard : Option Message → Result Message → Result Message
  or_shard none r = r
  or_shard (some m) r = ok m

  unfoldable pub frame_to_pubsub : Shape → Result Message
  unfolding parse_shard_pubsub_frame parse_message_kind parse_message_fields
  frame_to_pubsub frame = or_shard (parse_shard_pubsub_frame frame) (message_of frame)

  abbrev as_resp3 : Shape → Result Message
  as_resp3 (Shape.push fs) =
      frame_to_pubsub (Shape.push (shapes (Shape.simple_string pubsub_push_prefix ∷ frames fs)))
  as_resp3 _ = fail RedisErrorKind.protocol "Invalid pubsub message. Expected push frame."

  unfoldable pub parse_as_resp2_pubsub : Shape → Result Message
  unfolding parse_shard_pubsub_frame frame_to_pubsub
  parse_as_resp2_pubsub frame = or_shard (parse_shard_pubsub_frame frame) (as_resp3 frame)

  abbrev resp2_start : Option (List Shape) → Bool
  resp2_start (some (a ∷ fs)) =
      (length (a ∷ fs) == 3 || length (a ∷ fs) == 4)
      && (says (methods.as_str a) (text "message")
          || says (methods.as_str a) (text "pmessage")
          || says (methods.as_str a) (text "smessage"))
  resp2_start _ = false

  -- Whether the frame is a message, in RESP3 and in RESP2.
  unfoldable pub check_pubsub_formats : Shape → Bool × Bool
  check_pubsub_formats frame =
      if methods.is_pubsub_message frame
      then (true, false)
      else (false, resp2_start (elements frame))

  unfoldable pub parse_pubsub_message : Shape → Bool → Bool → Result Message
  unfolding frame_to_pubsub parse_as_resp2_pubsub
  parse_pubsub_message frame is_resp3 is_resp2 =
      if is_resp3
      then frame_to_pubsub frame
      else if is_resp2
      then parse_as_resp2_pubsub frame
      else fail RedisErrorKind.protocol "Invalid pubsub message."

  abbrev says_unsubscribed : Option Str → Bool
  says_unsubscribed s =
      says s (text "unsubscribe") || says s (text "punsubscribe") || says s (text "sunsubscribe")

  abbrev unsubscribed : List Shape → Bool
  unsubscribed (a ∷ b ∷ rest) =
      leb 3 (length (a ∷ b ∷ rest))
      && leb (length (a ∷ b ∷ rest)) 4
      && ((says (methods.as_str a) pubsub_push_prefix && says_unsubscribed (methods.as_str b))
          || says_unsubscribed (methods.as_str a))
  unsubscribed _ = false

  abbrev from_unsubscribe : Option (List Shape) → Bool
  from_unsubscribe none = false
  from_unsubscribe (some fs) = unsubscribed fs

  abbrev pub expects_unsubscribed : RedisCommandKind → Bool
  expects_unsubscribed RedisCommandKind.unsubscribe = true
  expects_unsubscribed RedisCommandKind.punsubscribe = true
  expects_unsubscribed RedisCommandKind.sunsubscribe = true
  expects_unsubscribed _ = false

  unfoldable pub should_drop_extra_pubsub_frame : RedisCommandKind → Shape → Bool
  should_drop_extra_pubsub_frame command frame =
      from_unsubscribe (elements frame) && (if expects_unsubscribed command then false else true)
