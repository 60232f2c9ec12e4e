-- ===== src/Frame.antt =====
-- The frames that src/protocol/utils.rs reads and makes. `Resp3Frame` belongs to the redis-protocol crate: a `Shape` is what
-- the patterns of the source see of a frame, its kind and its data; they never look at its attributes. The methods of the
-- crate that the source calls on frames are parameters.
pub mod Results
pub mod Single
pub mod Mocked
pub mod Pubsub
pub mod Keyspace
pub mod Aggregate
pub mod Outgoing
pub mod Special
use fred_rs.Prelude.{ℕ, ◌≡◌, refl, ap, Bool, true, false, Option, none, some, List, [], ◌∷◌}
use fred_rs.Text.{Str, Bytes, text, from_utf8}
use fred_rs.Value.{ℤ, F64, RedisValue}

mutual
  pub data Shape : Type 0 where
    null : Shape
    simple_string blob_string blob_error verbatim_string big_number : Bytes → Shape
    simple_error : Str → Shape
    number : ℤ → Shape
    double : F64 → Shape
    boolean : Bool → Shape
    array push set : Shapes → Shape
    map : ShapeMap → Shape
    other : Shape

  pub data Shapes : Type 0 where
    nil : Shapes
    cons : Shape → Shapes → Shapes

  -- `FrameMap` as its entries in the order in which they are iterated.
  pub data ShapeMap : Type 0 where
    empty : ShapeMap
    entry : Shape → Shape → ShapeMap → ShapeMap

-- The methods of the crate's frames, `String::from_utf8_lossy`, and whether the build has the feature `mocks`.
pub record FrameMethods : Type 0 where
  pub as_str : Shape → Option Str
  pub is_array : Shape → Bool
  pub is_error : Shape → Bool
  pub is_pubsub_message : Shape → Bool
  pub lossy : Bytes → Str
  pub mocks : Bool

abbrev pub frames : Shapes → List Shape
frames nil = []
frames (cons f fs) = f ∷ frames fs

abbrev pub shapes : List Shape → Shapes
shapes [] = nil
shapes (f ∷ fs) = cons f (shapes fs)

abbrev string_if : Bytes → Option Str → RedisValue
string_if content none = RedisValue.bytes content
string_if content (some s) = RedisValue.string s

unfoldable pub string_or_bytes : Bytes → RedisValue
string_or_bytes content = string_if content (from_utf8 content)

unfoldable pub frame_to_bytes : Shape → Option Bytes
frame_to_bytes (Shape.big_number content) = some content
frame_to_bytes (Shape.verbatim_string content) = some content
frame_to_bytes (Shape.blob_string content) = some content
frame_to_bytes (Shape.simple_string content) = some content
frame_to_bytes (Shape.blob_error content) = some content
frame_to_bytes (Shape.simple_error content) = some content
frame_to_bytes _ = none

unfoldable pub frame_to_str : Shape → Option Str
frame_to_str (Shape.big_number content) = from_utf8 content
frame_to_str (Shape.verbatim_string content) = from_utf8 content
frame_to_str (Shape.blob_string content) = from_utf8 content
frame_to_str (Shape.simple_string content) = from_utf8 content
frame_to_str (Shape.blob_error content) = from_utf8 content
frame_to_str (Shape.simple_error content) = some content
frame_to_str _ = none
