-- ===== src/Value/Convert.antt =====
-- Aggregates: `into_map` and `into_array` of src/types/args.rs, and `FromRedis` at vectors and maps, of
-- src/modules/response.rs.
pub mod Maps
use fred_rs.Prelude.{
  ℕ, zero, suc, ◌+◌, Bool, true, false, Option, none, some, List, [], ◌∷◌, ◌++◌, map, reverse,
  if◌then◌else◌,
}
use fred_rs.Text.{Str, Bytes, text, from_utf8}
use fred_rs.Error.{RedisErrorKind, RedisError, Result, ok, err, fail, ◌>>=◌}
use fred_rs.Value.{
  RedisValue, Values, Entries, cons, nil, empty, entry, Floats, items, values, pairs, insert,
  nil_text, queued_text,
}
use fred_rs.Value.Scalar.{into_string, to_key}

-- `.ok_or(..)` with a parse error.
abbrev ok_or_parse {ℓ} : {A : Type ℓ} → Option A → Str → Result A
ok_or_parse none d = err (record { kind = RedisErrorKind.parse; details = d })
ok_or_parse (some a) d = ok a

-- `into_iter().map(f).collect()` into a result.
unfoldable pub collect {ℓ κ} : {A : Type ℓ} {B : Type κ} → (A → Result B) → List A → Result (List B)
collect f [] = ok []
collect f (a ∷ as') = do b ← f a; bs ← collect f as'; ok (b ∷ bs)

-- `From<RedisKey> for RedisValue`.
abbrev key_value : Bytes → RedisValue
key_value k = RedisValue.bytes k

module _ (floats : Floats) where
  -- The loop of `into_map` takes pairs off the end; here the elements stand in reverse.
  unfoldable pub pop_pairs : List RedisValue → Entries → Result Entries
  pop_pairs (value ∷ key ∷ rest) inner = do
    k ← to_key floats key
    pop_pairs rest (insert k value inner)
  pop_pairs _ inner = ok inner

  even : List RedisValue → Bool
  even [] = true
  even (v ∷ []) = false
  even (v ∷ w ∷ vs) = even vs

  unfoldable pub into_map : RedisValue → Result Entries
  unfolding even
  into_map (RedisValue.map m) = ok m
  into_map (RedisValue.array vs) =
      if even (items vs)
      then pop_pairs (reverse (items vs)) empty
      else fail RedisErrorKind.unknown "Expected an even number of elements."
  into_map _ = fail RedisErrorKind.unknown "Expected array."

  -- `FromRedis for String`.
  unfoldable pub string_from_value : RedisValue → Result Str
  string_from_value RedisValue.null = ok nil_text
  string_from_value v = ok_or_parse (into_string floats v) (text "Could not convert to string.")

  -- `FromRedisKey for String`.
  unfoldable pub string_from_key : Bytes → Result Str
  string_from_key k = ok_or_parse (from_utf8 k) (text "Cannot parse key as string.")

  abbrev map_error {ℓ} : {A : Type ℓ} → Result A → Str → Result A
  map_error (ok a) d = ok a
  map_error (err e) d = err (record { kind = RedisErrorKind.parse; details = d })

  string_entry : Bytes × RedisValue → Result (Str × Str)
  unfolding string_from_key string_from_value
  string_entry (k, v) = do k' ← string_from_key k; v' ← string_from_value v; ok (k', v')

  -- `FromRedis for HashMap<String, String>`.
  unfoldable pub string_map_from_value : RedisValue → Result (List (Str × Str))
  unfolding into_map string_entry collect
  string_map_from_value RedisValue.null = fail RedisErrorKind.not_found "Cannot convert nil to map."
  string_map_from_value (RedisValue.array vs) = do
    as_map ← map_error (into_map (RedisValue.array vs)) (text "Cannot convert to map.")
    collect string_entry (pairs as_map)
  string_map_from_value (RedisValue.map m) = collect string_entry (pairs m)
  string_map_from_value _ = fail RedisErrorKind.parse "Cannot convert to map."

pub keys_and_values : List (Bytes × RedisValue) → List RedisValue
keys_and_values [] = []
keys_and_values ((k, v) ∷ es) = key_value k ∷ v ∷ keys_and_values es

unfoldable pub into_array : RedisValue → List RedisValue
unfolding keys_and_values
into_array (RedisValue.array vs) = items vs
into_array (RedisValue.map m) = keys_and_values (pairs m)
into_array v = v ∷ []

-- `FromRedis for Vec<T>`, where `T` is not `u8` and not a tuple.
module _ {T : Type 0} (from_value : RedisValue → Result T) where
  one : RedisValue → Result (List T)
  one v = do t ← from_value v; ok (t ∷ [])

  from_entries : List (Bytes × RedisValue) → Result (List T)
  from_entries [] = ok []
  from_entries ((k, v) ∷ es) = do
    key ← from_value (key_value k)
    value ← from_value v
    rest ← from_entries es
    ok (key ∷ value ∷ rest)

  unfoldable pub vec_from_value : RedisValue → Result (List T)
  unfolding one from_entries collect
  vec_from_value (RedisValue.bytes b) = fail RedisErrorKind.parse "Cannot convert from bytes"
  vec_from_value (RedisValue.array vs) = collect from_value (items vs)
  vec_from_value (RedisValue.map m) = from_entries (pairs m)
  vec_from_value RedisValue.null = ok []
  vec_from_value RedisValue.queued = one (RedisValue.string queued_text)
  vec_from_value v = one v
