-- ===== src/Frame/Results.antt =====
-- The conversion of frames to values, of src/protocol/utils.rs.
use fred_rs.Prelude.{Bool, false, ◌||◌, Option, none, some, if◌then◌else◌}
use fred_rs.Text.{Str, Bytes, bytes_eq}
use fred_rs.Error.{RedisErrorKind, Result, ok, err, fail, ◌>>=◌}
use fred_rs.Responses.{pretty_error}
use fred_rs.Value.{RedisValue, Values, Entries, Floats, nil, cons, empty, insert, queued_text}
use fred_rs.Value.Scalar.{as_str, to_key}
use fred_rs.Frame.{Shape, Shapes, ShapeMap, FrameMethods, string_or_bytes}

-- The body of an array of one value is that value.
abbrev unwrapped : Values → RedisValue
unwrapped (cons v nil) = v
unwrapped vs = RedisValue.array vs

module _ (methods : FrameMethods) (floats : Floats) where
  abbrev is_queued : Option Str → Bool
  is_queued none = false
  is_queued (some s) = bytes_eq s queued_text

  unfoldable pub simple_value : Bytes → RedisValue
  unfolding as_str string_or_bytes
  simple_value content =
      if is_queued (as_str floats (string_or_bytes content))
      then RedisValue.queued
      else string_or_bytes content

  -- What `frame_to_results`, `frame_to_results_raw` and `frame_to_single_result` do alike.
  unfoldable pub blob_error : Bytes → Result RedisValue
  blob_error content = err (pretty_error (methods.lossy content))

  -- `frame_to_single_result` without the feature `mocks`.
  unfoldable pub frame_to_validated_result : Shape → Result RedisValue
  unfolding simple_value blob_error
  frame_to_validated_result (Shape.simple_string content) = ok (simple_value content)
  frame_to_validated_result (Shape.simple_error content) = err (pretty_error content)
  frame_to_validated_result (Shape.number i) = ok (RedisValue.integer i)
  frame_to_validated_result (Shape.double f) = ok (RedisValue.double f)
  frame_to_validated_result (Shape.big_number content) = ok (string_or_bytes content)
  frame_to_validated_result (Shape.boolean b) = ok (RedisValue.boolean b)
  frame_to_validated_result (Shape.verbatim_string content) = ok (string_or_bytes content)
  frame_to_validated_result (Shape.blob_string content) = ok (string_or_bytes content)
  frame_to_validated_result (Shape.blob_error content) = blob_error content
  frame_to_validated_result (Shape.array Shapes.nil) = ok RedisValue.null
  frame_to_validated_result (Shape.array (Shapes.cons f Shapes.nil)) =
      let first = frame_to_validated_result f in
      if methods.is_array f || methods.is_error f
      then fail RedisErrorKind.protocol "Invalid nested array or error."
      else first
  frame_to_validated_result (Shape.array (Shapes.cons f (Shapes.cons g fs))) =
      fail RedisErrorKind.protocol "Could not convert multiple frames to RedisValue."
  frame_to_validated_result (Shape.push Shapes.nil) = ok RedisValue.null
  frame_to_validated_result (Shape.push (Shapes.cons f Shapes.nil)) =
      let first = frame_to_validated_result f in
      if methods.is_array f || methods.is_error f
      then fail RedisErrorKind.protocol "Invalid nested array or error."
      else first
  frame_to_validated_result (Shape.push (Shapes.cons f (Shapes.cons g fs))) =
      fail RedisErrorKind.protocol "Could not convert multiple frames to RedisValue."
  frame_to_validated_result (Shape.map m) = fail RedisErrorKind.protocol "Invalid aggregate type."
  frame_to_validated_result (Shape.set fs) = fail RedisErrorKind.protocol "Invalid aggregate type."
  frame_to_validated_result Shape.null = ok RedisValue.null
  frame_to_validated_result Shape.other = fail RedisErrorKind.protocol "Unexpected frame kind."

  -- `each` is the loop over the elements and `parse_nested_map` the one over the entries, with the map so far.
  unfoldable mutual
    unfolding simple_value blob_error frame_to_validated_result

    pub frame_to_results : Shape → Result RedisValue
    frame_to_results Shape.null = ok RedisValue.null
    frame_to_results (Shape.simple_string content) = ok (simple_value content)
    frame_to_results (Shape.simple_error content) = err (pretty_error content)
    frame_to_results (Shape.blob_string content) = ok (string_or_bytes content)
    frame_to_results (Shape.blob_error content) = blob_error content
    frame_to_results (Shape.verbatim_string content) = ok (string_or_bytes content)
    frame_to_results (Shape.number i) = ok (RedisValue.integer i)
    frame_to_results (Shape.double f) = ok (RedisValue.double f)
    frame_to_results (Shape.big_number content) = ok (string_or_bytes content)
    frame_to_results (Shape.boolean b) = ok (RedisValue.boolean b)
    frame_to_results (Shape.array fs) = each fs >>= λ vs. ok (unwrapped vs)
    frame_to_results (Shape.push fs) = each fs >>= λ vs. ok (unwrapped vs)
    frame_to_results (Shape.set fs) = each fs >>= λ vs. ok (RedisValue.array vs)
    frame_to_results (Shape.map m) = parse_nested_map m empty >>= λ es. ok (RedisValue.map es)
    frame_to_results Shape.other = fail RedisErrorKind.protocol "Invalid response frame type."

    pub each : Shapes → Result Values
    each Shapes.nil = ok nil
    each (Shapes.cons f fs) = do v ← frame_to_results f; vs ← each fs; ok (cons v vs)

    pub parse_nested_map : ShapeMap → Entries → Result Entries
    parse_nested_map ShapeMap.empty out = ok out
    parse_nested_map (ShapeMap.entry k v m) out = do
      single ←
          let whole = frame_to_results k in
          if methods.mocks then whole else frame_to_validated_result k
      key ← to_key floats single
      value ← frame_to_results v
      parse_nested_map m (insert key value out)

  -- With the feature `mocks` nothing is validated. `parse_nested_map` calls this function too.
  unfoldable pub frame_to_single_result : Shape → Result RedisValue
  unfolding frame_to_results frame_to_validated_result
  frame_to_single_result frame =
      if methods.mocks then frame_to_results frame else frame_to_validated_result frame

  unfoldable mutual
    unfolding simple_value blob_error frame_to_single_result

    pub frame_to_results_raw : Shape → Result RedisValue
    frame_to_results_raw Shape.null = ok RedisValue.null
    frame_to_results_raw (Shape.simple_string content) = ok (simple_value content)
    frame_to_results_raw (Shape.simple_error content) = err (pretty_error content)
    frame_to_results_raw (Shape.blob_string content) = ok (string_or_bytes content)
    frame_to_results_raw (Shape.blob_error content) = blob_error content
    frame_to_results_raw (Shape.verbatim_string content) = ok (string_or_bytes content)
    frame_to_results_raw (Shape.number i) = ok (RedisValue.integer i)
    frame_to_results_raw (Shape.double f) = ok (RedisValue.double f)
    frame_to_results_raw (Shape.big_number content) = ok (string_or_bytes content)
    frame_to_results_raw (Shape.boolean b) = ok (RedisValue.boolean b)
    frame_to_results_raw (Shape.array fs) = each_raw fs >>= λ vs. ok (RedisValue.array vs)
    frame_to_results_raw (Shape.push fs) = each_raw fs >>= λ vs. ok (RedisValue.array vs)
    frame_to_results_raw (Shape.set fs) = each_raw fs >>= λ vs. ok (RedisValue.array vs)
    frame_to_results_raw (Shape.map m) = entries_raw m empty >>= λ es. ok (RedisValue.map es)
    frame_to_results_raw Shape.other = fail RedisErrorKind.protocol "Invalid response frame type."

    pub each_raw : Shapes → Result Values
    each_raw Shapes.nil = ok nil
    each_raw (Shapes.cons f fs) = do v ← frame_to_results_raw f; vs ← each_raw fs; ok (cons v vs)

    pub entries_raw : ShapeMap → Entries → Result Entries
    entries_raw ShapeMap.empty out = ok out
    entries_raw (ShapeMap.entry k v m) out = do
      single ← frame_to_single_result k
      key ← to_key floats single
      value ← frame_to_results_raw v
      entries_raw m (insert key value out)
