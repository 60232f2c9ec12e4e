-- ===== src/Frame/Mocked/Roundtrip.antt =====
-- About `mocked_value_to_frame` and `frame_to_results_raw` of src/protocol/utils.rs.
use fred_rs.Prelude.{◌≡◌, refl, ap, sym, ◌∙◌, false, none, some, arith, inl, inr, Bool-cases}
use fred_rs.Text.{Bytes, bytes_eq, from_utf8, from_utf8-cases, text}
use fred_rs.Error.{ok}
use fred_rs.Value.{
  RedisValue, Values, Entries, Floats, nil, cons, empty, entry, insert, lookup, queued_text,
}
use fred_rs.Value.Scalar.{to_key, as_str}
use fred_rs.Value.Convert.Maps.{lookup-insert}
use fred_rs.Frame.{Shape, FrameMethods, string_or_bytes}
use fred_rs.Frame.Results.{
  frame_to_results_raw, each_raw, entries_raw, frame_to_single_result, frame_to_results,
  simple_value, frame_to_validated_result,
}
use fred_rs.Frame.Mocked.{mocked_value_to_frame, mocked_values, mocked_entries}

-- No key of the entries is `k`, and none is a key of `out`.
abbrev IsAbsent : Bytes → Entries → Type 0
IsAbsent k empty = Unit
IsAbsent k (entry j v es) = (bytes_eq k j ≡ false) × IsAbsent k es

abbrev IsFresh : Entries → Entries → Type 0
IsFresh out empty = Unit
IsFresh out (entry j v es) = (lookup j out ≡ none) × IsFresh out es

-- Strings are UTF-8 and bytes are not, as the client reads them; the keys of a map are distinct.
abbrev mutual
  pub IsRead : RedisValue → Type 0
  IsRead (RedisValue.string s) = from_utf8 s ≡ some s
  IsRead (RedisValue.bytes b) = from_utf8 b ≡ none
  IsRead (RedisValue.array vs) = AreRead vs
  IsRead (RedisValue.map es) = IsReadMap es
  IsRead (RedisValue.boolean b) = Unit
  IsRead (RedisValue.integer i) = Unit
  IsRead (RedisValue.double f) = Unit
  IsRead RedisValue.null = Unit
  IsRead RedisValue.queued = Unit

  AreRead : Values → Type 0
  AreRead nil = Unit
  AreRead (cons v vs) = IsRead v × AreRead vs

  IsReadMap : Entries → Type 0
  IsReadMap empty = Unit
  IsReadMap (entry k v es) = IsAbsent k es × IsRead v × IsReadMap es

-- The entries of both, in order.
joined : Entries → Entries → Entries
joined empty es = es
joined (entry k v out) es = entry k v (joined out es)

joined-empty : (es : Entries) → joined es empty ≡ es
unfolding joined
joined-empty empty = refl
joined-empty (entry k v es) = ap (entry k v) (joined-empty es)

joined-insert :
    (out es : Entries) (k : Bytes) (v : RedisValue)
    → lookup k out ≡ none
    → joined (insert k v out) es ≡ joined out (entry k v es)
unfolding joined insert lookup
joined-insert empty es k v h = refl
joined-insert (entry j w out) es k v h = ground (arith, joined-insert out es k v)

IsFresh-empty : (es : Entries) → IsFresh empty es
unfolding lookup
IsFresh-empty empty = tt
IsFresh-empty (entry k v es) = (refl, IsFresh-empty es)

IsFresh-insert :
    (out es : Entries) (k : Bytes) (v : RedisValue)
    → IsAbsent k es
    → IsFresh out es
    → IsFresh (insert k v out) es
IsFresh-insert out empty k v a h = tt
IsFresh-insert out (entry j w es) k v (a, as') (h, hs) =
    (lookup-insert k j v out ∙ rw (a) h, IsFresh-insert out es k v as' hs)

to_key-string_or_bytes : (floats : Floats) (k : Bytes) → to_key floats (string_or_bytes k) ≡ ok k
unfolding to_key string_or_bytes
to_key-string_or_bytes floats k = elim (from_utf8-cases k) [
  | inl e ↦ rw (e) refl
  | inr e ↦ rw (e) refl
]

module _ (methods : FrameMethods) (floats : Floats) where
  simple_value-queued : simple_value methods floats queued_text ≡ RedisValue.queued
  unfolding simple_value from_utf8 bytes_eq string_or_bytes as_str text
  simple_value-queued = refl

  -- A key is read alike with and without the feature `mocks`.
  key_back :
      (k : Bytes)
      → frame_to_single_result methods floats (Shape.blob_string k) ≡ ok (string_or_bytes k)
  unfolding frame_to_single_result frame_to_validated_result frame_to_results
  key_back k = elim (Bool-cases methods.mocks) [ inl q ↦ rw (q) refl | inr q ↦ rw (q) refl ]

  mutual
    unfolding mocked_value_to_frame mocked_values mocked_entries frame_to_results_raw each_raw
        entries_raw joined

    value_back :
        (v : RedisValue)
        → IsRead v
        → frame_to_results_raw methods floats (mocked_value_to_frame v) ≡ ok v
    value_back (RedisValue.string s) h = rw (string_or_bytes, h) refl
    value_back (RedisValue.bytes b) h = rw (string_or_bytes, h) refl
    value_back (RedisValue.array vs) h = rw (values_back vs h) refl
    value_back (RedisValue.map es) h = rw (entries_back es empty h (IsFresh-empty es)) refl
    value_back (RedisValue.boolean b) h = refl
    value_back (RedisValue.integer i) h = refl
    value_back (RedisValue.double f) h = refl
    value_back RedisValue.null h = refl
    value_back RedisValue.queued h = ap ok simple_value-queued

    values_back : (vs : Values) → AreRead vs → each_raw methods floats (mocked_values vs) ≡ ok vs
    values_back nil h = refl
    values_back (cons v vs) (h, hs) = rw (value_back v h, values_back vs hs) refl

    entries_back :
        (es out : Entries)
        → IsReadMap es
        → IsFresh out es
        → entries_raw methods floats (mocked_entries es) out ≡ ok (joined out es)
    entries_back empty out h f = ap ok (sym (joined-empty out))
    entries_back (entry k v es) out (a, h, hs) (f, fs) =
        rw (key_back k, to_key-string_or_bytes floats k, value_back v h)
          (entries_back es (insert k v out) hs (IsFresh-insert out es k v a fs)
            ∙ ap ok (joined-insert out es k v f))

  -- A value that the mocking layer turns into a frame is read back as itself, where its strings are UTF-8, its bytes are not,
  -- and its maps have distinct keys, at any depth.
  pub frame_to_results_raw-mocked_value_to_frame :
      (v : RedisValue)
      → IsRead v
      → frame_to_results_raw methods floats (mocked_value_to_frame v) ≡ ok v
  frame_to_results_raw-mocked_value_to_frame v h = value_back v h
