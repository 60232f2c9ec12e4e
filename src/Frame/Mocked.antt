-- ===== src/Frame/Mocked.antt =====
-- `mocked_value_to_frame` of src/protocol/utils.rs, by which a mocked server answers, and `value_to_outgoing_resp3_frame`,
-- by which the client sends its arguments.
pub mod Roundtrip
use fred_rs.Prelude.{Bool, true, false}
use fred_rs.Text.{Bytes, to_string}
use fred_rs.Error.{RedisErrorKind, Result, ok, err}
use fred_rs.Value.{RedisValue, Values, Entries, Floats, nil, cons, empty, entry, queued_text}
use fred_rs.Value.Scalar.{bool_to_string, i64_to_string}
use fred_rs.Frame.{Shape, Shapes, ShapeMap}

unfoldable mutual
  pub mocked_value_to_frame : RedisValue → Shape
  mocked_value_to_frame (RedisValue.array vs) = Shape.array (mocked_values vs)
  mocked_value_to_frame (RedisValue.map es) = Shape.map (mocked_entries es)
  mocked_value_to_frame RedisValue.null = Shape.null
  mocked_value_to_frame RedisValue.queued = Shape.simple_string queued_text
  mocked_value_to_frame (RedisValue.bytes b) = Shape.blob_string b
  mocked_value_to_frame (RedisValue.boolean b) = Shape.boolean b
  mocked_value_to_frame (RedisValue.integer i) = Shape.number i
  mocked_value_to_frame (RedisValue.double f) = Shape.double f
  mocked_value_to_frame (RedisValue.string s) = Shape.blob_string s

  pub mocked_values : Values → Shapes
  mocked_values nil = Shapes.nil
  mocked_values (cons v vs) = Shapes.cons (mocked_value_to_frame v) (mocked_values vs)

  -- A key becomes a value of bytes, and that a blob string.
  pub mocked_entries : Entries → ShapeMap
  mocked_entries empty = ShapeMap.empty
  mocked_entries (entry k v es) =
      ShapeMap.entry (Shape.blob_string k) (mocked_value_to_frame v) (mocked_entries es)
