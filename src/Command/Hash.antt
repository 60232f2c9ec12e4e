-- ===== src/Command/Hash.antt =====
-- `ClusterHash` of src/protocol/hashers.rs: the hash slot of a command's arguments. `keyslot` is `redis_keyslot` of the
-- redis-protocol crate.
use fred_rs.Prelude.{ℕ, ◌≡◌, refl, ap, ◌∙◌, Option, none, some, List, [], ◌∷◌, get_elem?, arith}
use fred_rs.Text.{Bytes, text}
use fred_rs.Value.{RedisValue, Floats}
use fred_rs.Value.Scalar.{i64_to_string, bool_to_string}
use fred_rs.Command.Kind.{ClusterHash}

-- `Option::map`, `Option::and_then`, `Option::or` and `Iterator::find_map`.
abbrev pub option_map {ℓ κ} : {A : Type ℓ} {B : Type κ} → (A → B) → Option A → Option B
option_map f none = none
option_map f (some a) = some (f a)

abbrev and_then {ℓ κ} : {A : Type ℓ} {B : Type κ} → Option A → (A → Option B) → Option B
and_then none f = none
and_then (some a) f = f a

abbrev pub or {ℓ} : {A : Type ℓ} → Option A → Option A → Option A
or none p = p
or (some a) p = some a

abbrev find_map {ℓ κ} : {A : Type ℓ} {B : Type κ} → (A → Option B) → List A → Option B
find_map f [] = none
find_map f (a ∷ rest) = or (f a) (find_map f rest)

unfoldable pub read_redis_key : RedisValue → Option Bytes
read_redis_key (RedisValue.string s) = some s
read_redis_key (RedisValue.bytes b) = some b
read_redis_key _ = none

-- `ClusterHash::find_key`.
unfoldable pub find_key : ClusterHash → List RedisValue → Option Bytes
find_key ClusterHash.first_value args = and_then (get_elem? args 0) read_redis_key
find_key ClusterHash.first_key args = find_map read_redis_key args
find_key (ClusterHash.offset idx) args = and_then (get_elem? args idx) read_redis_key
find_key ClusterHash.random args = none
find_key (ClusterHash.custom slot) args = none

module _ (floats : Floats) (keyslot : Bytes → ℕ) where
  unfoldable pub hash_value : RedisValue → Option ℕ
  hash_value (RedisValue.string s) = some (keyslot s)
  hash_value (RedisValue.bytes b) = some (keyslot b)
  hash_value (RedisValue.integer i) = some (keyslot (i64_to_string i))
  hash_value (RedisValue.double f) = some (keyslot (floats.f64_to_string f))
  hash_value RedisValue.null = some (keyslot (text "nil"))
  hash_value (RedisValue.boolean b) = some (keyslot (bool_to_string b))
  hash_value _ = none

  unfoldable pub hash_key : RedisValue → Option ℕ
  unfolding read_redis_key
  hash_key v = option_map keyslot (read_redis_key v)

  -- `ClusterHash::hash`.
  unfoldable pub hash : ClusterHash → List RedisValue → Option ℕ
  unfolding hash_value hash_key
  hash ClusterHash.first_value args = and_then (get_elem? args 0) hash_value
  hash ClusterHash.first_key args = find_map hash_key args
  hash ClusterHash.random args = none
  hash (ClusterHash.offset idx) args = and_then (get_elem? args idx) hash_value
  hash (ClusterHash.custom slot) args = some slot

  -- Under the default policy the slot is that of the key that is found.
  pub hash-first_key :
      (args : List RedisValue)
      → hash ClusterHash.first_key args ≡ option_map keyslot (find_key ClusterHash.first_key args)
  unfolding hash hash_key find_key
  hash-first_key [] = refl
  hash-first_key (v ∷ args) =
      elim (read_redis_key v)
        as (λ o.
          or (option_map keyslot o) (find_map (hash_key) args)
          ≡ option_map keyslot (or o (find_map read_redis_key args))) [
            | none ↦ hash-first_key args
            | some k ↦ refl
          ]

  hash_value-key :
      (o : Option RedisValue) (key : Bytes)
      → and_then o read_redis_key ≡ some key
      → and_then o hash_value ≡ some (keyslot key)
  unfolding hash_value read_redis_key
  hash_value-key none key h = ground arith
  hash_value-key (some v) key h = ground arith

  -- Whatever the policy: where it finds a key in the arguments, the slot is that of the key.
  pub hash-find_key :
      (policy : ClusterHash) (args : List RedisValue) (key : Bytes)
      → find_key policy args ≡ some key
      → hash policy args ≡ some (keyslot key)
  unfolding hash find_key
  hash-find_key ClusterHash.first_value args key h = hash_value-key (get_elem? args 0) key h
  hash-find_key ClusterHash.first_key args key h = hash-first_key args ∙ ap (option_map keyslot) h
  hash-find_key (ClusterHash.offset idx) args key h = hash_value-key (get_elem? args idx) key h
  hash-find_key ClusterHash.random args key h = ground arith
  hash-find_key (ClusterHash.custom slot) args key h = ground arith
