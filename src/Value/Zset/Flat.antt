-- ===== src/Value/Zset/Flat.antt =====
-- What `flatten_redis_value` leaves.
use fred_rs.Prelude.{◌≡◌, refl, false, List, [], ◌∷◌, ◌++◌, All}
use fred_rs.Value.{RedisValue, Values, nil, cons, items, items-values, is_array}
use fred_rs.Value.Zset.{spliced, flatten_redis_value, flatten_each}

abbrev pub IsScalar : RedisValue → Type 0
IsScalar v = is_array v ≡ false

abbrev IsFlat : RedisValue → Type 0
IsFlat (RedisValue.array vs) = All IsScalar (items vs)
IsFlat _ = Unit {0}

All-append : (xs ys : List RedisValue) → All IsScalar xs → All IsScalar ys → All IsScalar (xs ++ ys)
All-append [] ys a b = b
All-append (x ∷ xs) ys a b = (a.0, All-append xs ys a.1 b)

spliced-scalars :
    (v : RedisValue) (rest : List RedisValue)
    → IsFlat v
    → All IsScalar rest
    → All IsScalar (spliced v rest)
unfolding is_array
spliced-scalars (RedisValue.array vs) rest f a = All-append (items vs) rest f a
spliced-scalars (RedisValue.boolean x) rest f a = (refl, a)
spliced-scalars v rest f a = (refl, a)

mutual
  unfolding flatten_redis_value

  IsFlat-value : (v : RedisValue) → IsFlat (flatten_redis_value v)
  IsFlat-value (RedisValue.array vs) = rw (items-values (flatten_each vs)) (IsFlat-each vs)
  IsFlat-value (RedisValue.boolean x) = tt
  IsFlat-value v = tt

  IsFlat-each : (vs : Values) → All IsScalar (flatten_each vs)
  IsFlat-each nil = tt
  IsFlat-each (cons v vs) =
      spliced-scalars (flatten_redis_value v) (flatten_each vs) (IsFlat-value v) (IsFlat-each vs)

-- What is flattened holds no array in an array, however deep they were.
flatten_redis_value-IsFlat : (v : RedisValue) → IsFlat (flatten_redis_value v)
flatten_redis_value-IsFlat v = IsFlat-value v
