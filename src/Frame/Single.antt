-- ===== src/Frame/Single.antt =====
-- About `frame_to_single_result` of src/protocol/utils.rs, beside `frame_to_results`.
use fred_rs.Prelude.{◌≡◌, ◌≢◌, refl, Bool, true, false, if◌then◌else◌, arith}
use fred_rs.Text.{Bytes}
use fred_rs.Error.{RedisErrorKind, Result, ok, fail}
use fred_rs.Value.{RedisValue, Floats, is_aggregate_type}
use fred_rs.Frame.{Shape, Shapes, FrameMethods, string_or_bytes}
use fred_rs.Frame.Results.{
  frame_to_single_result, frame_to_validated_result, frame_to_results, blob_error, simple_value,
}

module _ (methods : FrameMethods) (floats : Floats) where
  abbrev single : Shape → Result RedisValue
  single = frame_to_validated_result methods floats

  abbrev results : Shape → Result RedisValue
  results = frame_to_results methods floats

  -- An array or a push of one frame, in both functions.
  results-one :
      (f : Shape) (v : RedisValue)
      → results f ≡ ok v
      → (results (Shape.array (Shapes.cons f Shapes.nil)) ≡ ok v)
        × (results (Shape.push (Shapes.cons f Shapes.nil)) ≡ ok v)
  unfolding frame_to_results
  results-one f v e = (rw (e) refl, rw (e) refl)

  guarded :
      (b : Bool) (r : Result RedisValue) (v : RedisValue)
      → (if b then fail RedisErrorKind.protocol "Invalid nested array or error." else r) ≡ ok v
      → r ≡ ok v
  guarded true r v e = absurd (ground arith)
  guarded false r v e = e

  frame_to_validated_result-results :
      (f : Shape) (v : RedisValue)
      → v ≢ RedisValue.null
      → frame_to_validated_result methods floats f ≡ ok v
      → frame_to_results methods floats f ≡ ok v
  unfolding frame_to_validated_result frame_to_results blob_error
  frame_to_validated_result-results (Shape.simple_string c) v n e = e
  frame_to_validated_result-results (Shape.number i) v n e = e
  frame_to_validated_result-results (Shape.double f) v n e = e
  frame_to_validated_result-results (Shape.big_number c) v n e = e
  frame_to_validated_result-results (Shape.boolean b) v n e = e
  frame_to_validated_result-results (Shape.verbatim_string c) v n e = e
  frame_to_validated_result-results (Shape.blob_string c) v n e = e
  frame_to_validated_result-results Shape.null v n e = e
  frame_to_validated_result-results (Shape.array Shapes.nil) v n e = absurd (ground arith)
  frame_to_validated_result-results (Shape.push Shapes.nil) v n e = absurd (ground arith)
  frame_to_validated_result-results (Shape.array (Shapes.cons f Shapes.nil)) v n e =
      (results-one f v (frame_to_validated_result-results f v n (guarded _ (single f) v e))).0
  frame_to_validated_result-results (Shape.push (Shapes.cons f Shapes.nil)) v n e =
      (results-one f v (frame_to_validated_result-results f v n (guarded _ (single f) v e))).1
  frame_to_validated_result-results (Shape.simple_error c) v n e = absurd (ground arith)
  frame_to_validated_result-results (Shape.blob_error c) v n e = absurd (ground arith)
  frame_to_validated_result-results (Shape.array (Shapes.cons f (Shapes.cons g fs))) v n e =
      absurd (ground arith)
  frame_to_validated_result-results (Shape.push (Shapes.cons f (Shapes.cons g fs))) v n e =
      absurd (ground arith)
  frame_to_validated_result-results (Shape.map m) v n e = absurd (ground arith)
  frame_to_validated_result-results (Shape.set fs) v n e = absurd (ground arith)
  frame_to_validated_result-results Shape.other v n e = absurd (ground arith)

  chosen :
      (b : Bool) (r s : Result RedisValue) (v : RedisValue)
      → (if b then r else s) ≡ ok v
      → (s ≡ ok v → r ≡ ok v)
      → r ≡ ok v
  chosen true r s v e h = e
  chosen false r s v e h = h e

  -- Where `frame_to_single_result` gives a value that is not null, `frame_to_results` gives the same.
  pub frame_to_single_result-results :
      (f : Shape) (v : RedisValue)
      → v ≢ RedisValue.null
      → frame_to_single_result methods floats f ≡ ok v
      → frame_to_results methods floats f ≡ ok v
  unfolding frame_to_single_result
  frame_to_single_result-results f v n e =
      chosen methods.mocks (results f) (single f) v e
        (λ h. frame_to_validated_result-results f v n h)

  string_or_bytes-IsScalar : (c : Bytes) → is_aggregate_type (string_or_bytes c) ≡ false
  unfolding string_or_bytes is_aggregate_type
  string_or_bytes-IsScalar c = ground arith

  simple_value-IsScalar : (c : Bytes) → is_aggregate_type (simple_value methods floats c) ≡ false
  unfolding simple_value is_aggregate_type
  simple_value-IsScalar c = ground (arith, string_or_bytes-IsScalar c)

  -- What `frame_to_single_result` returns without the feature `mocks` is never an array or a map.
  frame_to_validated_result-IsScalar :
      (f : Shape) (v : RedisValue)
      → frame_to_validated_result methods floats f ≡ ok v
      → is_aggregate_type v ≡ false
  unfolding frame_to_validated_result is_aggregate_type blob_error
  frame_to_validated_result-IsScalar (Shape.simple_string c) v e =
      ground (arith, simple_value-IsScalar c)
  frame_to_validated_result-IsScalar (Shape.big_number c) v e =
      ground (arith, string_or_bytes-IsScalar c)
  frame_to_validated_result-IsScalar (Shape.verbatim_string c) v e =
      ground (arith, string_or_bytes-IsScalar c)
  frame_to_validated_result-IsScalar (Shape.blob_string c) v e =
      ground (arith, string_or_bytes-IsScalar c)
  frame_to_validated_result-IsScalar (Shape.array (Shapes.cons f Shapes.nil)) v e =
      frame_to_validated_result-IsScalar f v (guarded _ (single f) v e)
  frame_to_validated_result-IsScalar (Shape.push (Shapes.cons f Shapes.nil)) v e =
      frame_to_validated_result-IsScalar f v (guarded _ (single f) v e)
  frame_to_validated_result-IsScalar f v e = ground arith
