-- ===== src/Error.antt =====
-- src/error.rs: the kinds of error, the error value, and results that may carry one.
use fred_rs.Prelude.{String}
use fred_rs.Text.{Str, text}

-- `Tls` and `Replica` stand under cargo features, which the published documentation enables.
pub data RedisErrorKind : Type 0 where
  config auth io invalid_command invalid_argument url protocol tls : RedisErrorKind
  canceled unknown timeout cluster parse sentinel not_found backpressure replica : RedisErrorKind

unfoldable to_str : RedisErrorKind → String
to_str RedisErrorKind.auth = "Authentication Error"
to_str RedisErrorKind.io = "IO Error"
to_str RedisErrorKind.invalid_argument = "Invalid Argument"
to_str RedisErrorKind.invalid_command = "Invalid Command"
to_str RedisErrorKind.url = "Url Error"
to_str RedisErrorKind.protocol = "Protocol Error"
to_str RedisErrorKind.unknown = "Unknown Error"
to_str RedisErrorKind.canceled = "Canceled"
to_str RedisErrorKind.cluster = "Cluster Error"
to_str RedisErrorKind.timeout = "Timeout Error"
to_str RedisErrorKind.tls = "TLS Error"
to_str RedisErrorKind.config = "Config Error"
to_str RedisErrorKind.parse = "Parse Error"
to_str RedisErrorKind.sentinel = "Sentinel Error"
to_str RedisErrorKind.not_found = "Not Found"
to_str RedisErrorKind.backpressure = "Backpressure"
to_str RedisErrorKind.replica = "Replica"

pub record RedisError : Type 0 where
  pub kind : RedisErrorKind
  pub details : Str

pub data Result {ℓ} (A : Type ℓ) : Type ℓ where
  ok : A → Result A
  err : RedisError → Result A

-- `Err(RedisError::new(kind, details))`.
abbrev pub fail {ℓ} : {A : Type ℓ} → RedisErrorKind → String → Result A
fail k d = err (record { kind = k; details = text d })

infixl 5 ◌>>=◌
-- The `?` operator: an error ends the chain.
abbrev pub ◌>>=◌ {ℓ κ} : {V : Type ℓ} {W : Type κ} → Result V → (V → Result W) → Result W
err failure >>= next = err failure
ok value >>= next = next value
