-- ===== src/Value/Zset.antt =====
-- Sorted sets in replies: `flatten_redis_value` and `value_to_zset_result` of src/protocol/utils.rs, `as_f64` of
-- src/types/args.rs and `redis_string_to_f64` of src/utils.rs.
pub mod Flat
pub mod Order
use fred_rs.Prelude.{
  Bool, true, false, ◌||◌, Option, none, some, List, [], ◌∷◌, ◌++◌, reverse, if◌then◌else◌,
}
use fred_rs.Text.{Str, text, bytes_eq}
use fred_rs.Error.{RedisErrorKind, Result, ok, err, fail, ◌>>=◌}
use fred_rs.Value.{RedisValue, Values, nil, cons, F64, Floats, items, values}

-- An array that stands in an array is put in its place, element by element.
abbrev pub spliced : RedisValue → List RedisValue → List RedisValue
spliced (RedisValue.array inner) rest = items inner ++ rest
spliced v rest = v ∷ rest

unfoldable mutual
  pub flatten_redis_value : RedisValue → RedisValue
  flatten_redis_value (RedisValue.array vs) = RedisValue.array (values (flatten_each vs))
  flatten_redis_value v = v

  pub flatten_each : Values → List RedisValue
  flatten_each nil = []
  flatten_each (cons v vs) = spliced (flatten_redis_value v) (flatten_each vs)

module _ (floats : Floats) (infinity neg_infinity : F64) where
  unfoldable pub redis_string_to_f64 : Str → Option F64
  redis_string_to_f64 s =
      if bytes_eq s (text "+inf") || bytes_eq s (text "inf")
      then some infinity
      else if bytes_eq s (text "-inf")
      then some neg_infinity
      else floats.f64_parse s

  unfoldable pub as_f64 : RedisValue → Option F64
  unfolding redis_string_to_f64
  as_f64 (RedisValue.double f) = some f
  as_f64 (RedisValue.string s) = redis_string_to_f64 s
  as_f64 (RedisValue.integer i) = some (floats.f64_of_i64 i)
  as_f64 (RedisValue.array (cons v nil)) = as_f64 v
  as_f64 _ = none

  abbrev score_of : Option F64 → Result F64
  score_of none = fail RedisErrorKind.protocol "Could not convert value to floating point number."
  score_of (some f) = ok f

  -- The loop takes a score and its value off the end; here the elements stand in reverse.
  unfoldable pub pop_scores : List RedisValue → Result (List (RedisValue × F64))
  unfolding as_f64
  pop_scores (score ∷ value ∷ rest) = do
    f ← score_of (as_f64 score)
    out ← pop_scores rest
    ok ((value, f) ∷ out)
  pop_scores _ = ok []

  unfoldable pub is_even : List RedisValue → Bool
  is_even [] = true
  is_even (v ∷ []) = false
  is_even (v ∷ w ∷ vs) = is_even vs

  abbrev pub zset_of : RedisValue → Result (List (RedisValue × F64))
  zset_of (RedisValue.array vs) =
      if is_even (items vs)
      then pop_scores (reverse (items vs))
      else fail RedisErrorKind.unknown "Expected an even number of redis values."
  zset_of _ = fail RedisErrorKind.unknown "Expected array of redis values."

  unfoldable pub value_to_zset_result : RedisValue → Result (List (RedisValue × F64))
  unfolding flatten_redis_value is_even pop_scores
  value_to_zset_result v = zset_of (flatten_redis_value v)
