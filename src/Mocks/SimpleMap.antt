-- ===== src/Mocks/SimpleMap.antt =====
-- `SimpleMap` of src/modules/mocks.rs: a map of keys and values that answers GET, SET and DEL.
use fred_rs.Prelude.{
  ℕ, ◌+◌, ◌≡◌, refl, sym, ◌∙◌, ap, inl, inr, Bool-cases, Bool, false, ◌||◌, Option, none, some,
  List, [], ◌∷◌, arith, if◌then◌else◌,
}
use fred_rs.Text.{Bytes, text, bytes_eq, bytes_eq_iff}
use fred_rs.Error.{RedisErrorKind, Result, ok, err, fail}
use fred_rs.Value.{RedisValue, Entries, empty, entry, pos, ok_text, insert, lookup, Floats}
use fred_rs.Value.Scalar.{to_key}
use fred_rs.Value.Convert.Maps.{lookup-insert}
use fred_rs.Mocks.{MockCommand}

-- `HashMap::remove`.
unfoldable pub delete : Bytes → Entries → Entries
delete k empty = empty
delete k (entry j w es) = let rest = delete k es in if bytes_eq j k then rest else entry j w rest

abbrev or_null : Option RedisValue → RedisValue
or_null none = RedisValue.null
or_null (some v) = v

abbrev pub found : Option RedisValue → ℕ
found none = 0
found (some v) = 1

module _ (floats : Floats) where
  -- `get`
  unfoldable pub get : Entries → List RedisValue → Result RedisValue
  get m [] = fail RedisErrorKind.invalid_argument "Missing key."
  get m (key ∷ args) = elim (to_key floats key) [ ok k ↦ ok (or_null (lookup k m)) | err e ↦ err e ]

  -- `set`: the key is read before the value is looked for.
  unfoldable pub set : Entries → List RedisValue → Result RedisValue × Entries
  set m [] = (fail RedisErrorKind.invalid_argument "Missing key.", m)
  set m (key ∷ []) = elim (to_key floats key) [
    | ok k ↦ (fail RedisErrorKind.invalid_argument "Missing value.", m)
    | err e ↦ (err e, m)
  ]
  set m (key ∷ value ∷ args) = elim (to_key floats key) [
    | ok k ↦ (ok (RedisValue.string ok_text), insert k value m)
    | err e ↦ (err e, m)
  ]

  del_from : ℕ → Entries → List RedisValue → Result RedisValue × Entries
  del_from count m [] = (ok (RedisValue.integer (pos count)), m)
  del_from count m (arg ∷ args) = elim (to_key floats arg) [
    | ok k ↦ del_from (count + found (lookup k m)) (delete k m) args
    | err e ↦ (err e, m)
  ]

  -- `del`: an argument that is no key ends it, the keys before it being removed.
  unfoldable pub del : Entries → List RedisValue → Result RedisValue × Entries
  unfolding del_from
  del m args = del_from 0 m args

  -- `SimpleMap::process_command`
  unfoldable pub process_command : Entries → MockCommand → Result RedisValue × Entries
  unfolding get set del
  process_command m c =
      if bytes_eq c.cmd (text "GET")
      then (get m c.args, m)
      else if bytes_eq c.cmd (text "SET")
      then set m c.args
      else if bytes_eq c.cmd (text "DEL")
      then del m c.args
      else (fail RedisErrorKind.unknown "Unimplemented.", m)

  lookup-delete :
      (k j : Bytes) (m : Entries)
      → lookup j (delete k m) ≡ (if bytes_eq k j then none else lookup j m)
  unfolding lookup delete
  lookup-delete k j empty = ground arith
  lookup-delete k j (entry i w m) =
      ground (arith, bytes_eq_iff i k, bytes_eq_iff i j, bytes_eq_iff k j, lookup-delete k j m)

  get-ok :
      (m : Entries) (other : RedisValue) (j : Bytes)
      → to_key floats other ≡ ok j
      → get m (other ∷ []) ≡ ok (or_null (lookup j m))
  unfolding get
  get-ok m other j h = rw (h, get) refl

  set-ok :
      (m : Entries) (key value : RedisValue) (k : Bytes)
      → to_key floats key ≡ ok k
      → (set m (key ∷ value ∷ [])).1 ≡ insert k value m
  unfolding set
  set-ok m key value k h = rw (h, set) refl

  -- After a SET that has a key and a value, a GET of a key gives the value where it is the same key, and what it gave
  -- before where it is another one.
  pub get-set :
      (m : Entries) (key value other : RedisValue) (k j : Bytes)
      → to_key floats key ≡ ok k
      → to_key floats other ≡ ok j
      → get (set m (key ∷ value ∷ [])).1 (other ∷ [])
        ≡ (if bytes_eq k j then ok value else get m (other ∷ []))
  get-set m key value other k j hk hj =
      get-ok (set m (key ∷ value ∷ [])).1 other j hj
      ∙ ap (λ (n : Entries). ok (or_null (lookup j n))) (set-ok m key value k hk)
      ∙ ap (λ (o : Option RedisValue). ok (or_null o)) (lookup-insert k j value m)
      ∙ elim (Bool-cases (bytes_eq k j)) [
        | inl same ↦ rw same refl
        | inr differ ↦ rw differ (sym (get-ok m other j hj))
      ]

  -- The keys that the arguments name.
  abbrev pub names : Bytes → List RedisValue → Bool
  names j [] = false
  names j (arg ∷ args) = elim (to_key floats arg) [
    | ok k ↦ bytes_eq k j || names j args
    | err e ↦ false
  ]

  after : ℕ → List RedisValue → Entries → Result Bytes → Result RedisValue × Entries
  after count args m (ok k) = del_from (count + found (lookup k m)) (delete k m) args
  after count args m (err e) = (err e, m)

  named : List RedisValue → Bytes → Result Bytes → Bool
  named args j (ok k) = bytes_eq k j || names j args
  named args j (err e) = false

  get-del_from :
      (count : ℕ) (args : List RedisValue) (m : Entries) (j : Bytes)
      → lookup j (del_from count m args).1 ≡ (if names j args then none else lookup j m)
  unfolding del_from after named
  get-del_from count [] m j = refl
  get-del_from count (arg ∷ args) m j =
      elim (to_key floats arg)
        as (λ r.
          lookup j (after count args m r).1 ≡ (if named args j r then none else lookup j m)) [
            | ok k ↦ ground (
              arith,
              get-del_from (count + found (lookup k m)) args (delete k m) j,
              lookup-delete k j m,
            )
            | err e ↦ refl
          ]

  -- After a DEL, a GET finds none of the keys in front of the first argument that is no key, and of any other key what it
  -- found before.
  pub get-del :
      (m : Entries) (args : List RedisValue) (other : RedisValue) (j : Bytes)
      → to_key floats other ≡ ok j
      → get (del m args).1 (other ∷ [])
        ≡ (if names j args then ok RedisValue.null else get m (other ∷ []))
  unfolding del
  get-del m args other j hj =
      get-ok (del m args).1 other j hj
      ∙ ap (λ (o : Option RedisValue). ok (or_null o)) (get-del_from 0 args m j)
      ∙ elim (Bool-cases (names j args)) [
        | inl named_it ↦ rw named_it refl
        | inr other_key ↦ rw other_key (sym (get-ok m other j hj))
      ]
