-- ===== src/Command/Arguments.antt =====
-- What src/utils.rs checks of the arguments of a command before it is sent: `disallow_nested_values`, and the bounds of a
-- range of names, `check_lex_str`.
use fred_rs.Prelude.{◌≡◌, refl, Bool, true, ◌||◌, List, [], ◌∷◌, if◌then◌else◌, arith}
use fred_rs.Text.{Str, text, bytes_eq, starts_with}
use fred_rs.Error.{RedisErrorKind, Result, ok, err, fail}
use fred_rs.Value.{RedisValue, Floats}
use fred_rs.Command.Request.{RedisCommand, args}
use fred_rs.Frame.{Shape}
use fred_rs.Frame.Outgoing.{value_to_outgoing_resp3_frame}

-- The test on one argument, and its error.
abbrev allowed : RedisValue → Result (Unit {0}) → Result (Unit {0})
allowed (RedisValue.map m) rest = fail RedisErrorKind.invalid_argument "Invalid argument type: Map"
allowed (RedisValue.array vs) rest =
    fail RedisErrorKind.invalid_argument "Invalid argument type: Array"
allowed v rest = rest

abbrev all_allowed : List RedisValue → Result (Unit {0})
all_allowed [] = ok tt
all_allowed (v ∷ vs) = allowed v (all_allowed vs)

unfoldable pub disallow_nested_values : RedisCommand → Result (Unit {0})
disallow_nested_values command = all_allowed (args command)

module _ (floats : Floats) where
  -- The arguments are sent one after the other, up to the first that cannot be sent.
  abbrev sent : Result Shape → Result (Unit {0}) → Result (Unit {0})
  sent (ok f) rest = rest
  sent (err e) rest = err e

  abbrev pub all_sent : List RedisValue → Result (Unit {0})
  all_sent [] = ok tt
  all_sent (v ∷ vs) = sent (value_to_outgoing_resp3_frame floats v) (all_sent vs)

  all_allowed-sent : (vs : List RedisValue) → all_allowed vs ≡ all_sent vs
  unfolding value_to_outgoing_resp3_frame
  all_allowed-sent [] = refl
  all_allowed-sent (RedisValue.boolean b ∷ vs) = all_allowed-sent vs
  all_allowed-sent (RedisValue.integer b ∷ vs) = all_allowed-sent vs
  all_allowed-sent (RedisValue.double b ∷ vs) = all_allowed-sent vs
  all_allowed-sent (RedisValue.string b ∷ vs) = all_allowed-sent vs
  all_allowed-sent (RedisValue.bytes b ∷ vs) = all_allowed-sent vs
  all_allowed-sent (RedisValue.null ∷ vs) = all_allowed-sent vs
  all_allowed-sent (RedisValue.queued ∷ vs) = all_allowed-sent vs
  all_allowed-sent (RedisValue.map b ∷ vs) = refl
  all_allowed-sent (RedisValue.array b ∷ vs) = refl

  -- The check refuses a command exactly when the encoder cannot send one of its arguments, and with the same error.
  pub disallow_nested_values-sent :
      (command : RedisCommand) → disallow_nested_values command ≡ all_sent (args command)
  unfolding disallow_nested_values
  disallow_nested_values-sent command = all_allowed-sent (args command)

data ZRangeKind : Type 0 where
  inclusive exclusive : ZRangeKind

abbrev is_formatted : Str → Bool
is_formatted s =
    starts_with s (text "(")
    || starts_with s (text "[")
    || bytes_eq s (text "+")
    || bytes_eq s (text "-")

abbrev bracket : ZRangeKind → Str → Str
bracket ZRangeKind.inclusive s = b'[' ∷ s
bracket ZRangeKind.exclusive s = b'(' ∷ s

unfoldable check_lex_str : Str → ZRangeKind → Str
check_lex_str val kind = if is_formatted val then val else bracket kind val

bracket-formatted : (kind : ZRangeKind) (s : Str) → is_formatted (bracket kind s) ≡ true
unfolding starts_with text
bracket-formatted ZRangeKind.inclusive s = refl
bracket-formatted ZRangeKind.exclusive s = refl

check_lex_str-formatted : (s : Str) (kind : ZRangeKind) → is_formatted (check_lex_str s kind) ≡ true
unfolding check_lex_str
check_lex_str-formatted s kind = ground (arith, bracket-formatted kind s)

-- A bound that was formatted once stays as it is, whatever the kind of the range.
check_lex_str-twice :
    (s : Str) (kind again : ZRangeKind)
    → check_lex_str (check_lex_str s kind) again ≡ check_lex_str s kind
unfolding check_lex_str
check_lex_str-twice s kind again = ground (arith, check_lex_str-formatted s kind)
