-- ===== src/Frame/Pubsub/Layout.antt =====
-- About the publish-subscribe messages that src/protocol/utils.rs reads, as a server lays them out.
use fred_rs.Prelude.{◌≡◌, ◌≢◌, refl, true, false, some}
use fred_rs.Text.{Str, text, bytes_eq}
use fred_rs.Error.{RedisErrorKind, ok, fail}
use fred_rs.Value.{RedisValue, Floats}
use fred_rs.Frame.{Shape, Shapes, FrameMethods, frame_to_str}
use fred_rs.Frame.Results.{frame_to_single_result}
use fred_rs.Frame.Pubsub.{
  MessageKind, frame_to_pubsub, parse_as_resp2_pubsub, pubsub_push_prefix, message_kind_from_str,
  parse_shard_pubsub_frame, has_shard_prefix, parse_message_kind, parse_message_fields, kind_in,
  check_pubsub_formats,
}

-- The word that announces a message, and the pattern that follows it where there is one.
abbrev kind_text : MessageKind → Str
kind_text MessageKind.message = text "message"
kind_text MessageKind.p_message = text "pmessage"
kind_text MessageKind.s_message = text "smessage"

abbrev with_pattern : MessageKind → Shape → Shapes → Shapes
with_pattern MessageKind.p_message pattern rest = Shapes.cons pattern rest
with_pattern MessageKind.message pattern rest = rest
with_pattern MessageKind.s_message pattern rest = rest

module _ (methods : FrameMethods) (floats : Floats) (word pattern channel_frame value_frame : Shape)
    (channel : Str) (value : RedisValue) (channel_reads : frame_to_str channel_frame ≡ some channel)
    (value_reads : frame_to_single_result methods floats value_frame ≡ ok value) where
  -- The elements of a message in RESP2.
  abbrev pub fields : MessageKind → Shapes
  fields kind =
      Shapes.cons word
        (with_pattern kind pattern (Shapes.cons channel_frame (Shapes.cons value_frame Shapes.nil)))

  -- A RESP3 message, with "pubsub" and the word of its kind in front, is read as that kind, its channel and its value, where
  -- those two can be read at all.
  pub frame_to_pubsub-push :
      (kind : MessageKind) (prefix : Shape)
      → methods.as_str prefix ≡ some pubsub_push_prefix
      → methods.as_str word ≡ some (kind_text kind)
      → frame_to_pubsub methods floats (Shape.push (Shapes.cons prefix (fields kind)))
        ≡ ok (record { channel = channel; value = value; kind = kind })
  unfolding frame_to_pubsub parse_shard_pubsub_frame has_shard_prefix parse_message_kind
      parse_message_fields kind_in message_kind_from_str text bytes_eq
  frame_to_pubsub-push MessageKind.message prefix p w = rw (p, w, channel_reads, value_reads) refl
  frame_to_pubsub-push MessageKind.p_message prefix p w = rw (p, w, channel_reads, value_reads) refl
  frame_to_pubsub-push MessageKind.s_message prefix p w = rw (p, w, channel_reads, value_reads) refl

  -- A pushed message in RESP2 is recognised as such, and read as its kind, its channel and its value, where the last two can
  -- be read at all. The crate is taken to read the text back of the string frame "pubsub", and to see no RESP3 message.
  pub parse_as_resp2_pubsub-push :
      (kind : MessageKind)
      → methods.as_str (Shape.simple_string pubsub_push_prefix) ≡ some pubsub_push_prefix
      → methods.is_pubsub_message (Shape.push (fields kind)) ≡ false
      → methods.as_str word ≡ some (kind_text kind)
      → (check_pubsub_formats methods floats (Shape.push (fields kind)) ≡ (false, true))
        × (parse_as_resp2_pubsub methods floats (Shape.push (fields kind))
            ≡ ok (record { channel = channel; value = value; kind = kind }))
  unfolding parse_as_resp2_pubsub frame_to_pubsub parse_shard_pubsub_frame has_shard_prefix
      parse_message_kind parse_message_fields kind_in message_kind_from_str check_pubsub_formats
      text bytes_eq
  parse_as_resp2_pubsub-push MessageKind.message p n w =
      (rw (n, w) refl, rw (w, p, channel_reads, value_reads) refl)
  parse_as_resp2_pubsub-push MessageKind.p_message p n w =
      (rw (n, w) refl, rw (w, p, channel_reads, value_reads) refl)
  parse_as_resp2_pubsub-push MessageKind.s_message p n w =
      (rw (n, w) refl, rw (w, channel_reads, value_reads) refl)

  -- An array in RESP2 is recognised just the same, but where it is no shard message it is refused: the parser wants a push.
  pub parse_as_resp2_pubsub-array :
      (kind : MessageKind)
      → kind ≢ MessageKind.s_message
      → methods.is_pubsub_message (Shape.array (fields kind)) ≡ false
      → methods.as_str word ≡ some (kind_text kind)
      → (check_pubsub_formats methods floats (Shape.array (fields kind)) ≡ (false, true))
        × (parse_as_resp2_pubsub methods floats (Shape.array (fields kind))
            ≡ fail RedisErrorKind.protocol "Invalid pubsub message. Expected push frame.")
  unfolding parse_as_resp2_pubsub frame_to_pubsub parse_shard_pubsub_frame has_shard_prefix
      check_pubsub_formats text bytes_eq
  parse_as_resp2_pubsub-array MessageKind.message s n w = (rw (n, w) refl, rw (w) refl)
  parse_as_resp2_pubsub-array MessageKind.p_message s n w = (rw (n, w) refl, rw (w) refl)
  parse_as_resp2_pubsub-array MessageKind.s_message s n w = absurd (s refl)
