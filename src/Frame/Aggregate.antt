-- ===== src/Frame/Aggregate.antt =====
-- `flatten_frame` and `frame_to_map` of src/protocol/utils.rs.
use fred_rs.Prelude.{◌≡◌, refl, ap, Bool, true, false, List, [], ◌∷◌, ◌++◌, reverse, if◌then◌else◌}
use fred_rs.Error.{RedisErrorKind, Result, ok, fail, ◌>>=◌}
use fred_rs.Value.{Entries, Floats, empty, insert}
use fred_rs.Value.Scalar.{to_key}
use fred_rs.Frame.{Shape, Shapes, FrameMethods, frames, shapes}
use fred_rs.Frame.Results.{frame_to_single_result, frame_to_results, parse_nested_map}

-- What an element of an array, or of a set, adds to the flat one.
abbrev flat_in_array : Shape → List Shape
flat_in_array (Shape.push fs) = frames fs
flat_in_array (Shape.array fs) = frames fs
flat_in_array (Shape.set fs) = frames fs
flat_in_array f = f ∷ []

abbrev flat_in_set : Shape → List Shape
flat_in_set (Shape.array fs) = frames fs
flat_in_set (Shape.set fs) = frames fs
flat_in_set f = f ∷ []

pub joined : (Shape → List Shape) → List Shape → List Shape
joined flat [] = []
joined flat (f ∷ fs) = flat f ++ joined flat fs

unfoldable flatten_frame : Shape → Shape
unfolding joined
flatten_frame (Shape.array fs) = Shape.array (shapes (joined flat_in_array (frames fs)))
flatten_frame (Shape.set fs) = Shape.array (shapes (joined flat_in_set (frames fs)))
flatten_frame f = f

even : List Shape → Bool
even [] = true
even (f ∷ []) = false
even (f ∷ g ∷ fs) = even fs

module _ (methods : FrameMethods) (floats : Floats) where
  -- The loop takes pairs off the end; here the elements stand in reverse.
  unfoldable pub pop_pairs : List Shape → Entries → Result Entries
  unfolding frame_to_results frame_to_single_result
  pop_pairs (value ∷ key ∷ rest) inner = do
    v ← frame_to_results methods floats value
    single ← frame_to_single_result methods floats key
    k ← to_key floats single
    pop_pairs rest (insert k v inner)
  pop_pairs _ inner = ok inner

  unfoldable pub frame_to_map : Shape → Result Entries
  unfolding pop_pairs even parse_nested_map
  frame_to_map (Shape.array fs) =
      if even (frames fs)
      then pop_pairs (reverse (frames fs)) empty
      else fail RedisErrorKind.protocol "Expected an even number of frames."
  frame_to_map (Shape.map m) = parse_nested_map methods floats m empty
  frame_to_map _ = fail RedisErrorKind.protocol "Expected array or map frames."

-- Neither arrays nor pushes nor sets.
abbrev IsLeaf : Shape → Type 0
IsLeaf (Shape.array fs) = ⊥
IsLeaf (Shape.push fs) = ⊥
IsLeaf (Shape.set fs) = ⊥
IsLeaf f = Unit

abbrev AreLeaves : List Shape → Type 0
AreLeaves [] = Unit
AreLeaves (f ∷ fs) = IsLeaf f × AreLeaves fs

flat_in_array-leaf : (f : Shape) → IsLeaf f → flat_in_array f ≡ f ∷ []
flat_in_array-leaf (Shape.array fs) h = absurd h
flat_in_array-leaf (Shape.push fs) h = absurd h
flat_in_array-leaf (Shape.set fs) h = absurd h
flat_in_array-leaf Shape.null h = refl
flat_in_array-leaf (Shape.simple_string c) h = refl
flat_in_array-leaf (Shape.blob_string c) h = refl
flat_in_array-leaf (Shape.blob_error c) h = refl
flat_in_array-leaf (Shape.verbatim_string c) h = refl
flat_in_array-leaf (Shape.big_number c) h = refl
flat_in_array-leaf (Shape.simple_error c) h = refl
flat_in_array-leaf (Shape.number i) h = refl
flat_in_array-leaf (Shape.double d) h = refl
flat_in_array-leaf (Shape.boolean b) h = refl
flat_in_array-leaf (Shape.map m) h = refl
flat_in_array-leaf Shape.other h = refl

joined_leaves : (fs : List Shape) → AreLeaves fs → joined flat_in_array fs ≡ fs
unfolding joined
joined_leaves [] h = refl
joined_leaves (f ∷ fs) (h, hs) = rw (flat_in_array-leaf f h, joined_leaves fs hs) refl

shapes-frames : (fs : Shapes) → shapes (frames fs) ≡ fs
shapes-frames Shapes.nil = refl
shapes-frames (Shapes.cons f fs) = ap (Shapes.cons f) (shapes-frames fs)

-- An array without arrays, pushes and sets in it is not changed by flattening.
flatten_frame-flat :
    (fs : Shapes) → AreLeaves (frames fs) → flatten_frame (Shape.array fs) ≡ Shape.array fs
unfolding flatten_frame
flatten_frame-flat fs h = rw (joined_leaves (frames fs) h, shapes-frames fs) refl
