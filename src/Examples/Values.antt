-- ===== src/Examples/Values.antt =====
-- Sorted set replies, and maps.
use fred_rs.Prelude.{◌≡◌, refl, [], ◌∷◌}
use fred_rs.Text.{Bytes}
use fred_rs.Error.{ok}
use fred_rs.Value.{is_array, RedisValue, Entries, empty, entry, lookup, values}
use fred_rs.Value.Convert.{into_map, into_array}
use fred_rs.Value.Convert.Maps.{into_map-into_array}
use fred_rs.Value.Zset.{value_to_zset_result}
use fred_rs.Value.Zset.Order.{Scores, with_scores, value_to_zset_result-reverse}
use fred_rs.Examples.Routing.{floats}

abbrev a : Bytes
a = b'a' ∷ []

abbrev b : Bytes
b = b'b' ∷ []

abbrev board : Scores
board = (RedisValue.string a, 1) ∷ (RedisValue.string b, 2) ∷ []

value_to_zset_result-reverse_example :
    value_to_zset_result floats 0 0 (RedisValue.array (values (with_scores board)))
    ≡ ok ((RedisValue.string b, 2) ∷ (RedisValue.string a, 1) ∷ [])
unfolding is_array
value_to_zset_result-reverse_example =
    value_to_zset_result-reverse floats 0 0 board (refl, (refl, tt))

abbrev kept : Entries
kept = entry a RedisValue.queued (entry b RedisValue.null empty)

into_map-into_array_example :
    (m : Entries) × (into_map floats (RedisValue.array (values (into_array (RedisValue.map kept))))
      ≡ ok m)
    × ((j : Bytes) → lookup j m ≡ lookup j kept)
into_map-into_array_example = into_map-into_array floats kept
