-- ===== src/Examples/Frames.antt =====
-- Frames of replies and of messages.
use fred_rs.Prelude.{◌≡◌, ◌≢◌, refl, Bool, true, false, some, [], ◌∷◌, ◌++◌, arith}
use fred_rs.Text.{Str, text, from_utf8, bytes_eq}
use fred_rs.Error.{ok}
use fred_rs.Value.{RedisValue, nil, cons, entry, empty, pos}
use fred_rs.Frame.{Shape, Shapes, FrameMethods, frame_to_str}
use fred_rs.Frame.Results.{
  frame_to_single_result, frame_to_validated_result, frame_to_results, frame_to_results_raw,
}
use fred_rs.Frame.Single.{frame_to_single_result-results}
use fred_rs.Frame.Mocked.{mocked_value_to_frame}
use fred_rs.Frame.Mocked.Roundtrip.{frame_to_results_raw-mocked_value_to_frame}
use fred_rs.Frame.Pubsub.{MessageKind, frame_to_pubsub, parse_as_resp2_pubsub, check_pubsub_formats}
use fred_rs.Frame.Pubsub.Layout.{frame_to_pubsub-push, parse_as_resp2_pubsub-push}
use fred_rs.Frame.Keyspace.{
  parse_keyspace_notification, parse_keyspace_notification-notified, keyspace_prefix,
  keyevent_prefix, notified,
}
use fred_rs.Examples.Routing.{floats}

abbrev is_array : Shape → Bool
is_array (Shape.array fs) = true
is_array _ = false

abbrev is_error : Shape → Bool
is_error (Shape.simple_error e) = true
is_error (Shape.blob_error e) = true
is_error _ = false

abbrev methods : FrameMethods
methods = record {
  as_str = frame_to_str;
  is_array = is_array;
  is_error = is_error;
  is_pubsub_message = λ f. false;
  lossy = λ b. b;
  mocks = false;
}

abbrev mocked : FrameMethods
mocked = record methods { mocks = true }

abbrev seven : Shape
seven = Shape.array (Shapes.cons (Shape.number (pos 7)) Shapes.nil)

seven_single : frame_to_single_result methods floats seven ≡ ok (RedisValue.integer (pos 7))
unfolding frame_to_single_result frame_to_validated_result
seven_single = refl

seven-ne-null : RedisValue.integer (pos 7) ≢ RedisValue.null
seven-ne-null = ground arith

frame_to_single_result-results_example :
    frame_to_results methods floats seven ≡ ok (RedisValue.integer (pos 7))
frame_to_single_result-results_example =
    frame_to_single_result-results methods floats seven (RedisValue.integer (pos 7)) seven-ne-null
      seven_single

-- An empty array is null to the one function and an empty array to the other.
empty_single : frame_to_single_result methods floats (Shape.array Shapes.nil) ≡ ok RedisValue.null
unfolding frame_to_single_result frame_to_validated_result
empty_single = refl

empty_results : frame_to_results methods floats (Shape.array Shapes.nil) ≡ ok (RedisValue.array nil)
unfolding frame_to_results
empty_results = refl

abbrev stored : RedisValue
stored = RedisValue.map (
    entry (text "a")
      (RedisValue.array (cons (RedisValue.string (text "x")) (cons RedisValue.queued nil)))
      (entry (text "b") (RedisValue.bytes (255 ∷ [])) empty))

frame_to_results_raw-mocked_value_to_frame_example :
    frame_to_results_raw mocked floats (mocked_value_to_frame stored) ≡ ok stored
unfolding from_utf8 text bytes_eq
frame_to_results_raw-mocked_value_to_frame_example =
    frame_to_results_raw-mocked_value_to_frame mocked floats stored
      ((refl, tt), (refl, (tt, tt)), (tt, refl, tt))

abbrev word : Str → Shape
word s = Shape.blob_string s

frame_to_pubsub-push_example :
    frame_to_pubsub methods floats (
      Shape.push (
        Shapes.cons (word (text "pubsub")) (
          Shapes.cons (word (text "pmessage")) (
            Shapes.cons
              (word (text "n*"))
              (Shapes.cons (word (text "news")) (Shapes.cons (Shape.number (pos 1)) Shapes.nil))))))
    ≡ ok (record {
      channel = text "news";
      value = RedisValue.integer (pos 1);
      kind = MessageKind.p_message;
    })
unfolding frame_to_str text from_utf8 frame_to_single_result frame_to_validated_result
frame_to_pubsub-push_example =
    frame_to_pubsub-push methods floats (word (text "pmessage")) (word (text "n*"))
      (word (text "news")) (Shape.number (pos 1)) (text "news") (RedisValue.integer (pos 1)) refl
      refl MessageKind.p_message (word (text "pubsub")) refl refl

parse_as_resp2_pubsub-push_example :
    (check_pubsub_formats methods floats (
        Shape.push (
          Shapes.cons
            (word (text "message"))
            (Shapes.cons (word (text "news")) (Shapes.cons (Shape.number (pos 1)) Shapes.nil))))
      ≡ (false, true))
    × (parse_as_resp2_pubsub methods floats (
          Shape.push (
            Shapes.cons
              (word (text "message"))
              (Shapes.cons (word (text "news")) (Shapes.cons (Shape.number (pos 1)) Shapes.nil))))
        ≡ ok (record {
          channel = text "news";
          value = RedisValue.integer (pos 1);
          kind = MessageKind.message;
        }))
unfolding frame_to_str text from_utf8 frame_to_single_result frame_to_validated_result
parse_as_resp2_pubsub-push_example =
    parse_as_resp2_pubsub-push methods floats (word (text "message")) Shape.null
      (word (text "news")) (Shape.number (pos 1)) (text "news") (RedisValue.integer (pos 1)) refl
      refl MessageKind.message refl refl refl

parse_keyspace_notification-notified_example :
    (parse_keyspace_notification floats
        (keyspace_prefix ++ notified floats 12 (text "a:b@c"))
        (RedisValue.string (text "set"))
      ≡ some (record { db = 12; key = text "a:b@c"; operation = text "set" }))
    × (parse_keyspace_notification floats
          (keyevent_prefix ++ notified floats 12 (text "set"))
          (RedisValue.bytes (text "a:b@c"))
        ≡ some (record { db = 12; key = text "a:b@c"; operation = text "set" }))
parse_keyspace_notification-notified_example =
    parse_keyspace_notification-notified floats 12 (text "a:b@c") (text "set") (omega arith)
