-- ===== src/Value.antt =====
-- `RedisValue`, `RedisMap` and `RedisKey` of src/types/args.rs: the data, and the tests on its kind.
pub mod Scalar
pub mod Convert
pub mod Zset
use fred_rs.Prelude.{
  ℕ, zero, suc, ◌+◌, ◌%◌, ◌≡◌, refl, ap, Bool, true, false, ◌&&◌, ◌||◌, Option, none, some, List,
  [], ◌∷◌, ltb, ◌==◌, if◌then◌else◌, length,
}
use fred_rs.Text.{Str, Bytes, text, bytes_eq}

-- `i64`: `negsuc n` is -(n + 1).
pub data ℤ : Type 0 where
  pos : ℕ → ℤ
  negsuc : ℕ → ℤ

-- `f64` by its bit pattern; its arithmetic and its text form are not modelled.
abbrev pub F64 : Type 0
F64 = ℕ

-- What the crate does with floating point numbers: `to_string`, `parse::<f64>` and `i64 as f64`.
pub record Floats : Type 0 where
  pub f64_to_string : F64 → Str
  pub f64_parse : Str → Option F64
  pub f64_of_i64 : ℤ → F64

-- The lists and the maps of values. A `HashMap` is its entries in some order, with distinct keys.
mutual
  pub data RedisValue : Type 0 where
    boolean : Bool → RedisValue
    integer : ℤ → RedisValue
    double : F64 → RedisValue
    string : Str → RedisValue
    bytes : Bytes → RedisValue
    null : RedisValue
    queued : RedisValue
    map : Entries → RedisValue
    array : Values → RedisValue

  pub data Values : Type 0 where
    nil : Values
    cons : RedisValue → Values → Values

  pub data Entries : Type 0 where
    empty : Entries
    entry : Bytes → RedisValue → Entries → Entries

abbrev pub items : Values → List RedisValue
items nil = []
items (cons v vs) = v ∷ items vs

abbrev pub values : List RedisValue → Values
values [] = nil
values (v ∷ vs) = cons v (values vs)

abbrev pub pairs : Entries → List (Bytes × RedisValue)
pairs empty = []
pairs (entry k v es) = (k, v) ∷ pairs es

abbrev pub entries : List (Bytes × RedisValue) → Entries
entries [] = empty
entries ((k, v) ∷ es) = entry k v (entries es)

pub items-values : (vs : List RedisValue) → items (values vs) ≡ vs
items-values [] = refl
items-values (v ∷ vs) = ap (λ (r : List RedisValue). v ∷ r) (items-values vs)

values-items : (vs : Values) → values (items vs) ≡ vs
values-items nil = refl
values-items (cons v vs) = ap (cons v) (values-items vs)

-- `HashMap::insert` and `HashMap::get`.
unfoldable pub insert : Bytes → RedisValue → Entries → Entries
insert k v empty = entry k v empty
insert k v (entry j w es) = if bytes_eq j k then entry j v es else entry j w (insert k v es)

unfoldable pub lookup : Bytes → Entries → Option RedisValue
lookup k empty = none
lookup k (entry j w es) = if bytes_eq j k then some w else lookup k es

-- The texts `QUEUED`, `nil` and `OK`.
abbrev pub queued_text : Str
queued_text = text "QUEUED"

abbrev pub nil_text : Str
nil_text = text "nil"

abbrev pub ok_text : Str
ok_text = text "OK"

pub data RedisValueKind : Type 0 where
  boolean integer double string bytes null queued map array : RedisValueKind

unfoldable pub kind : RedisValue → RedisValueKind
kind (RedisValue.boolean b) = RedisValueKind.boolean
kind (RedisValue.integer i) = RedisValueKind.integer
kind (RedisValue.double f) = RedisValueKind.double
kind (RedisValue.string s) = RedisValueKind.string
kind (RedisValue.bytes b) = RedisValueKind.bytes
kind RedisValue.null = RedisValueKind.null
kind RedisValue.queued = RedisValueKind.queued
kind (RedisValue.map m) = RedisValueKind.map
kind (RedisValue.array vs) = RedisValueKind.array

unfoldable pub is_null : RedisValue → Bool
is_null RedisValue.null = true
is_null _ = false

unfoldable pub is_array : RedisValue → Bool
is_array (RedisValue.array vs) = true
is_array _ = false

unfoldable is_map : RedisValue → Bool
is_map (RedisValue.map m) = true
is_map _ = false

unfoldable pub is_aggregate_type : RedisValue → Bool
is_aggregate_type (RedisValue.array vs) = true
is_aggregate_type (RedisValue.map m) = true
is_aggregate_type _ = false

unfoldable is_ok : RedisValue → Bool
is_ok (RedisValue.string s) = bytes_eq s ok_text
is_ok _ = false

unfoldable pub array_len : RedisValue → Option ℕ
array_len (RedisValue.array vs) = some (length (items vs))
array_len _ = none

-- Whether the elements with an even index are scalars, of an even number of elements.
scalar_keys : List RedisValue → Bool
unfolding is_aggregate_type
scalar_keys [] = true
scalar_keys (k ∷ []) = false
scalar_keys (k ∷ v ∷ vs) = (if is_aggregate_type k then false else true) && scalar_keys vs

-- `is_maybe_array_map` of src/utils.rs.
unfoldable is_maybe_array_map : List RedisValue → Bool
unfolding scalar_keys
is_maybe_array_map [] = false
is_maybe_array_map (v ∷ vs) = scalar_keys (v ∷ vs)

unfoldable is_maybe_map : RedisValue → Bool
unfolding is_maybe_array_map
is_maybe_map (RedisValue.map m) = true
is_maybe_map (RedisValue.array vs) = is_maybe_array_map (items vs)
is_maybe_map _ = false
