-- ===== src/Frame/Outgoing.antt =====
-- What src/protocol/utils.rs does with single values on their way out and in: `value_to_outgoing_resp3_frame`, `expect_ok`
-- and `check_null_timeout`.
use fred_rs.Prelude.{◌≡◌, refl, Bool, ◌||◌, some, ◌++◌, if◌then◌else◌, sym, ◌∙◌, inl, inr, arith}
use fred_rs.Text.{Str, text, bytes_eq, from_utf8-cases}
use fred_rs.Error.{RedisErrorKind, Result, ok, err, fail}
use fred_rs.Value.{RedisValue, Floats, ok_text, queued_text}
use fred_rs.Value.Scalar.{bool_to_string, i64_to_string, as_string}
use fred_rs.Frame.{Shape, frame_to_bytes}

module _ (floats : Floats) where
  -- The kinds that cannot be sent are maps and arrays.
  unfoldable pub value_to_outgoing_resp3_frame : RedisValue → Result Shape
  unfolding bool_to_string i64_to_string
  value_to_outgoing_resp3_frame (RedisValue.double f) =
      ok (Shape.blob_string (floats.f64_to_string f))
  value_to_outgoing_resp3_frame (RedisValue.boolean b) = ok (Shape.blob_string (bool_to_string b))
  value_to_outgoing_resp3_frame (RedisValue.integer i) = ok (Shape.blob_string (i64_to_string i))
  value_to_outgoing_resp3_frame (RedisValue.string s) = ok (Shape.blob_string s)
  value_to_outgoing_resp3_frame (RedisValue.bytes b) = ok (Shape.blob_string b)
  value_to_outgoing_resp3_frame RedisValue.queued = ok (Shape.blob_string queued_text)
  value_to_outgoing_resp3_frame RedisValue.null = ok Shape.null
  value_to_outgoing_resp3_frame (RedisValue.map m) =
      fail RedisErrorKind.invalid_argument "Invalid argument type: Map"
  value_to_outgoing_resp3_frame (RedisValue.array vs) =
      fail RedisErrorKind.invalid_argument "Invalid argument type: Array"

  -- A value that has a text is sent as that text.
  value_to_outgoing_resp3_frame-as_string :
      (v : RedisValue) (s : Str)
      → as_string floats v ≡ some s
      → (f : Shape) × (value_to_outgoing_resp3_frame v ≡ ok f) × (frame_to_bytes f ≡ some s)
  unfolding value_to_outgoing_resp3_frame as_string frame_to_bytes
  value_to_outgoing_resp3_frame-as_string (RedisValue.double f) s h =
      (Shape.blob_string (floats.f64_to_string f), refl, h)
  value_to_outgoing_resp3_frame-as_string (RedisValue.boolean b) s h =
      (Shape.blob_string (bool_to_string b), refl, h)
  value_to_outgoing_resp3_frame-as_string (RedisValue.integer i) s h =
      (Shape.blob_string (i64_to_string i), refl, h)
  value_to_outgoing_resp3_frame-as_string (RedisValue.string t) s h = (Shape.blob_string t, refl, h)
  value_to_outgoing_resp3_frame-as_string (RedisValue.bytes b) s h = elim (from_utf8-cases b) [
    | inl e ↦ (Shape.blob_string b, refl, sym e ∙ h)
    | inr e ↦ absurd (ground (arith, sym e ∙ h))
  ]
  value_to_outgoing_resp3_frame-as_string RedisValue.queued s h =
      (Shape.blob_string queued_text, refl, h)
  value_to_outgoing_resp3_frame-as_string RedisValue.null s h = absurd (ground arith)
  value_to_outgoing_resp3_frame-as_string (RedisValue.map m) s h = absurd (ground arith)
  value_to_outgoing_resp3_frame-as_string (RedisValue.array vs) s h = absurd (ground arith)

-- `debug` is the text of a value by `fmt::Debug`.
abbrev unexpected : Str → Result (Unit {0})
unexpected found =
    err (record { kind = RedisErrorKind.unknown; details = text "Expected OK, found " ++ found })

unfoldable expect_ok : (debug : RedisValue → Str) → RedisValue → Result (Unit {0})
expect_ok debug (RedisValue.string resp) =
    if bytes_eq resp ok_text || bytes_eq resp queued_text then ok tt else unexpected resp
expect_ok debug v = unexpected (debug v ++ text ".")

-- Null answers stand for a timeout.
unfoldable check_null_timeout : (is_null : Shape → Bool) → Shape → Result (Unit {0})
check_null_timeout is_null frame =
    if is_null frame then fail RedisErrorKind.timeout "Request timed out." else ok tt
