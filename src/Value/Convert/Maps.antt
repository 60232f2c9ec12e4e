-- ===== src/Value/Convert/Maps.antt =====
-- Maps that the server sends as a flat array.
use mathlib.Core.List.{reverse-cons, append_assoc}
use fred_rs.Prelude.{
  ◌≡◌, refl, ap, ◌∙◌, true, Option, some, List, [], ◌∷◌, ◌++◌, reverse, arith, if◌then◌else◌,
}
use fred_rs.Text.{Bytes, bytes_eq, bytes_eq_iff}
use fred_rs.Error.{ok}
use fred_rs.Value.{
  RedisValue, Entries, empty, entry, Floats, values, pairs, entries, insert, lookup, items-values,
}
use fred_rs.Value.Scalar.{to_key}
use fred_rs.Value.Convert.{pop_pairs, into_map, into_array, keys_and_values, even}

pub lookup-insert :
    (k j : Bytes) (v : RedisValue) (m : Entries)
    → lookup j (insert k v m) ≡ (if bytes_eq k j then some v else lookup j m)
unfolding lookup insert
lookup-insert k j v empty = refl
lookup-insert k j v (entry i w m) =
    ground (arith, bytes_eq_iff i k, bytes_eq_iff i j, bytes_eq_iff k j, lookup-insert k j v m)

abbrev Pairs : Type 0
Pairs = List (Bytes × RedisValue)

-- The pairs as the loop takes them off the end.
popped : Pairs → List RedisValue
popped [] = []
popped ((k, v) ∷ ps) = v ∷ RedisValue.bytes k ∷ popped ps

popped-append : (ps qs : Pairs) → popped (ps ++ qs) ≡ popped ps ++ popped qs
unfolding popped
popped-append [] qs = refl
popped-append ((k, v) ∷ ps) qs =
    ap (λ (r : List RedisValue). v ∷ RedisValue.bytes k ∷ r) (popped-append ps qs)

reverse-keys_and_values : (ps : Pairs) → reverse (keys_and_values ps) ≡ popped (reverse ps)
unfolding keys_and_values popped
reverse-keys_and_values [] = refl
reverse-keys_and_values ((k, v) ∷ ps) =
    rw
      (
        reverse-cons (RedisValue.bytes k) (v ∷ keys_and_values ps),
        reverse-cons v (keys_and_values ps),
        reverse-cons (k, v) ps,
        popped-append (reverse ps) ((k, v) ∷ []),
        reverse-keys_and_values ps,
      )
      (append_assoc (popped (reverse ps)) (v ∷ []) (RedisValue.bytes k ∷ []))

inserts : Pairs → Entries → Entries
inserts [] m = m
inserts ((k, v) ∷ ps) m = inserts ps (insert k v m)

inserts-append :
    (ps : Pairs) (k : Bytes) (v : RedisValue) (m : Entries)
    → inserts (ps ++ (k, v) ∷ []) m ≡ insert k v (inserts ps m)
unfolding inserts
inserts-append [] k v m = refl
inserts-append ((j, w) ∷ ps) k v m = inserts-append ps k v (insert j w m)

even-keys_and_values : (floats : Floats) (ps : Pairs) → even floats (keys_and_values ps) ≡ true
unfolding even keys_and_values
even-keys_and_values floats [] = refl
even-keys_and_values floats ((k, v) ∷ ps) = even-keys_and_values floats ps

pop_pairs-popped :
    (floats : Floats) (ps : Pairs) (m : Entries)
    → pop_pairs floats (popped ps) m ≡ ok (inserts ps m)
unfolding pop_pairs popped inserts to_key
pop_pairs-popped floats [] m = refl
pop_pairs-popped floats ((k, v) ∷ ps) m = pop_pairs-popped floats ps (insert k v m)

lookup-inserts :
    (ps : Pairs) (j : Bytes) → lookup j (inserts (reverse ps) empty) ≡ lookup j (entries ps)
unfolding inserts lookup
lookup-inserts [] j = refl
lookup-inserts ((k, v) ∷ ps) j =
    rw (reverse-cons (k, v) ps, inserts-append (reverse ps) k v empty)
      (lookup-insert k j v (inserts (reverse ps) empty)
        ∙ ap (λ (o : Option RedisValue). if bytes_eq k j then some v else o) (lookup-inserts ps j))

-- Read as a map, a flat array of keys and values gives each key the value of its first pair.
into_map-first :
    (floats : Floats) (ps : Pairs)
    → (m : Entries) × (into_map floats (RedisValue.array (values (keys_and_values ps))) ≡ ok m)
      × ((j : Bytes) → lookup j m ≡ lookup j (entries ps))
unfolding into_map
into_map-first floats ps = (
  inserts (reverse ps) empty,
  rw (items-values (keys_and_values ps), even-keys_and_values floats ps, reverse-keys_and_values ps)
      (pop_pairs-popped floats (reverse ps) empty),
  lookup-inserts ps,
)

entries-pairs : (m : Entries) → entries (pairs m) ≡ m
entries-pairs empty = refl
entries-pairs (entry k v m) = ap (entry k v) (entries-pairs m)

-- A map that is flattened to an array and read back answers every lookup as before.
pub into_map-into_array :
    (floats : Floats) (m : Entries)
    → (m' : Entries) × (into_map floats (RedisValue.array (values (into_array (RedisValue.map m))))
        ≡ ok m')
      × ((j : Bytes) → lookup j m' ≡ lookup j m)
unfolding into_array
into_map-into_array floats m =
    let (m', e, l) = into_map-first floats (pairs m) in
    (m', e, λ j. l j ∙ ap (lookup j) (entries-pairs m))
