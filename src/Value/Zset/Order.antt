-- ===== src/Value/Zset/Order.antt =====
-- The order of the pairs that `value_to_zset_result` gives.
use mathlib.Core.List.{reverse-cons, append_assoc}
use fred_rs.Prelude.{◌≡◌, refl, ap, true, List, [], ◌∷◌, ◌++◌, reverse, All}
use fred_rs.Error.{ok}
use fred_rs.Value.{RedisValue, F64, Floats, values, items-values, is_array}
use fred_rs.Value.Zset.{
  spliced, flatten_redis_value, flatten_each, as_f64, pop_scores, is_even, value_to_zset_result,
}
use fred_rs.Value.Zset.Flat.{IsScalar}

abbrev pub Scores : Type 0
Scores = List (RedisValue × F64)

-- The reply: each value, and behind it its score.
abbrev pub with_scores : Scores → List RedisValue
with_scores [] = []
with_scores ((v, f) ∷ ps) = v ∷ RedisValue.double f ∷ with_scores ps

-- The reply from its end.
popped : Scores → List RedisValue
popped [] = []
popped ((v, f) ∷ ps) = RedisValue.double f ∷ v ∷ popped ps

popped-append : (ps qs : Scores) → popped (ps ++ qs) ≡ popped ps ++ popped qs
unfolding popped
popped-append [] qs = refl
popped-append ((v, f) ∷ ps) qs =
    ap (λ (r : List RedisValue). RedisValue.double f ∷ v ∷ r) (popped-append ps qs)

reverse-with_scores : (ps : Scores) → reverse (with_scores ps) ≡ popped (reverse ps)
unfolding popped
reverse-with_scores [] = refl
reverse-with_scores ((v, f) ∷ ps) =
    rw
      (
        reverse-cons v (RedisValue.double f ∷ with_scores ps),
        reverse-cons (RedisValue.double f) (with_scores ps),
        reverse-cons (v, f) ps,
        popped-append (reverse ps) ((v, f) ∷ []),
        reverse-with_scores ps,
      )
      (append_assoc (popped (reverse ps)) (RedisValue.double f ∷ []) (v ∷ []))

flatten-scalar :
    (v : RedisValue) (rest : List RedisValue)
    → IsScalar v
    → spliced (flatten_redis_value v) rest ≡ v ∷ rest
unfolding flatten_redis_value is_array
flatten-scalar (RedisValue.array vs) rest s = cc
flatten-scalar (RedisValue.boolean x) rest s = refl
flatten-scalar v rest s = refl

flatten-with_scores :
    (ps : Scores)
    → All (λ (e : RedisValue × F64). IsScalar e.0) ps
    → flatten_each (values (with_scores ps)) ≡ with_scores ps
unfolding flatten_redis_value
flatten-with_scores [] a = refl
flatten-with_scores ((v, f) ∷ ps) a =
    rw (flatten-with_scores ps a.1) (flatten-scalar v (RedisValue.double f ∷ with_scores ps) a.0)

module _ (floats : Floats) (infinity neg_infinity : F64) where
  even-with_scores : (ps : Scores) → is_even floats infinity neg_infinity (with_scores ps) ≡ true
  unfolding is_even
  even-with_scores [] = refl
  even-with_scores ((v, f) ∷ ps) = even-with_scores ps

  pop_scores-popped : (ps : Scores) → pop_scores floats infinity neg_infinity (popped ps) ≡ ok ps
  unfolding popped pop_scores as_f64
  pop_scores-popped [] = refl
  pop_scores-popped ((v, f) ∷ ps) = rw (pop_scores-popped ps) refl

  -- Of a flat reply of values, none an array, and their scores as doubles, all pairs are returned, but the last one first.
  pub value_to_zset_result-reverse :
      (ps : Scores)
      → All (λ (e : RedisValue × F64). IsScalar e.0) ps
      → value_to_zset_result floats infinity neg_infinity
          (RedisValue.array (values (with_scores ps)))
        ≡ ok (reverse ps)
  unfolding value_to_zset_result flatten_redis_value
  value_to_zset_result-reverse ps a =
      rw
        (
          flatten-with_scores ps a,
          items-values (with_scores ps),
          even-with_scores ps,
          reverse-with_scores ps,
        )
        (pop_scores-popped (reverse ps))
