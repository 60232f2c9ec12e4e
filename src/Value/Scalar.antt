-- ===== src/Value/Scalar.antt =====
-- Scalars: the conversions of `RedisValue` and `RedisKey` in src/types/args.rs that read one value.
use fred_rs.Prelude.{
  ℕ, zero, suc, ◌+◌, ◌-◌, ◌^◌, Bool, true, false, ◌||◌, Option, none, some, List, [], ◌∷◌, ◌==◌,
  if◌then◌else◌,
}
use fred_rs.Text.{Str, Bytes, text, bytes_eq, to_string, parse_unsigned, from_utf8}
use fred_rs.Error.{RedisErrorKind, Result, ok, fail}
use fred_rs.Machine.{u64_max}
use fred_rs.Value.{RedisValue, cons, nil, ℤ, pos, negsuc, Floats, queued_text, nil_text}

abbrev true_text : Str
true_text = text "true"

abbrev false_text : Str
false_text = text "false"

-- `bool::to_string`.
unfoldable pub bool_to_string : Bool → Str
bool_to_string true = true_text
bool_to_string false = false_text

-- `i64::to_string`.
unfoldable pub i64_to_string : ℤ → Str
i64_to_string (pos n) = to_string n
i64_to_string (negsuc n) = b'-' ∷ to_string (suc n)

abbrev i64_max : ℕ
i64_max = 2 ^ 63 - 1

negated : Option ℕ → Option ℤ
negated none = none
negated (some zero) = some (pos 0)
negated (some (suc n)) = some (negsuc n)

positive : Option ℕ → Option ℤ
positive none = none
positive (some n) = some (pos n)

abbrev no_plus : ℕ → Str → Option ℕ
no_plus max [] = none
no_plus max (c ∷ s) = if c == b'+' then none else parse_unsigned max (c ∷ s)

-- `str::parse::<i64>`: a sign, and digits.
unfoldable parse_i64 : Str → Option ℤ
unfolding negated positive
parse_i64 [] = none
parse_i64 (c ∷ s) =
    if c == b'-'
    then negated (no_plus (i64_max + 1) s)
    else positive (parse_unsigned i64_max (c ∷ s))

-- `i64 as u64`, of a number that was found not to be negative.
unsigned_part : ℤ → Option ℕ
unsigned_part (pos n) = some n
unsigned_part (negsuc n) = none

unfoldable as_u64 : RedisValue → Option ℕ
unfolding unsigned_part
as_u64 (RedisValue.integer i) = unsigned_part i
as_u64 (RedisValue.string s) = parse_unsigned u64_max s
as_u64 (RedisValue.array (cons v nil)) = as_u64 v
as_u64 _ = none

unfoldable as_i64 : RedisValue → Option ℤ
as_i64 (RedisValue.integer i) = some i
as_i64 (RedisValue.string s) = parse_i64 s
as_i64 (RedisValue.array (cons v nil)) = as_i64 v
as_i64 _ = none

unfoldable as_bytes : RedisValue → Option Bytes
as_bytes (RedisValue.string s) = some s
as_bytes (RedisValue.bytes b) = some b
as_bytes RedisValue.queued = some queued_text
as_bytes _ = none

one_of : Str → List Str → Bool
one_of s [] = false
one_of s (t ∷ ts) = bytes_eq s t || one_of s ts

bool_of_text : Str → Option Bool
unfolding one_of
bool_of_text s =
    if one_of s (text "true" ∷ text "TRUE" ∷ text "t" ∷ text "T" ∷ text "1" ∷ [])
    then some true
    else if one_of s (text "false" ∷ text "FALSE" ∷ text "f" ∷ text "F" ∷ text "0" ∷ [])
    then some false
    else none

bool_of_i64 : ℤ → Option Bool
bool_of_i64 (pos zero) = some false
bool_of_i64 (pos (suc zero)) = some true
bool_of_i64 _ = none

unfoldable as_bool : RedisValue → Option Bool
unfolding bool_of_text bool_of_i64
as_bool (RedisValue.boolean b) = some b
as_bool (RedisValue.integer i) = bool_of_i64 i
as_bool (RedisValue.string s) = bool_of_text s
as_bool RedisValue.null = some false
as_bool (RedisValue.array (cons v nil)) = as_bool v
as_bool _ = none

module _ (floats : Floats) where
  -- `into_string`; `into_bytes_str` and `as_bytes_str` read the same.
  unfoldable pub into_string : RedisValue → Option Str
  unfolding bool_to_string i64_to_string
  into_string (RedisValue.boolean b) = some (bool_to_string b)
  into_string (RedisValue.double f) = some (floats.f64_to_string f)
  into_string (RedisValue.string s) = some s
  into_string (RedisValue.bytes b) = from_utf8 b
  into_string (RedisValue.integer i) = some (i64_to_string i)
  into_string RedisValue.queued = some queued_text
  into_string (RedisValue.array (cons v nil)) = into_string v
  into_string _ = none

  -- `RedisValue::as_str`: an array is no text, and nil is the text `nil`.
  unfoldable pub as_str : RedisValue → Option Str
  unfolding bool_to_string i64_to_string
  as_str (RedisValue.boolean b) = some (bool_to_string b)
  as_str (RedisValue.double f) = some (floats.f64_to_string f)
  as_str (RedisValue.string s) = some s
  as_str (RedisValue.bytes b) = from_utf8 b
  as_str (RedisValue.integer i) = some (i64_to_string i)
  as_str RedisValue.null = some nil_text
  as_str RedisValue.queued = some queued_text
  as_str _ = none

  -- `RedisValue::as_string`.
  unfoldable pub as_string : RedisValue → Option Str
  unfolding bool_to_string i64_to_string
  as_string (RedisValue.boolean b) = some (bool_to_string b)
  as_string (RedisValue.double f) = some (floats.f64_to_string f)
  as_string (RedisValue.string s) = some s
  as_string (RedisValue.bytes b) = from_utf8 b
  as_string (RedisValue.integer i) = some (i64_to_string i)
  as_string RedisValue.queued = some queued_text
  as_string _ = none

  -- `TryFrom<RedisValue> for RedisKey`.
  unfoldable pub to_key : RedisValue → Result Bytes
  unfolding bool_to_string i64_to_string
  to_key (RedisValue.string s) = ok s
  to_key (RedisValue.integer i) = ok (i64_to_string i)
  to_key (RedisValue.double f) = ok (floats.f64_to_string f)
  to_key (RedisValue.bytes b) = ok b
  to_key (RedisValue.boolean b) = ok (bool_to_string b)
  to_key RedisValue.queued = ok queued_text
  to_key _ = fail RedisErrorKind.invalid_argument "Cannot convert to key."
