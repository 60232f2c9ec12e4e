-- ===== src/Mocks.antt =====
-- src/modules/mocks.rs: the mocking layers that answer commands in place of a server.
pub mod SimpleMap
pub mod Buffer
use fred_rs.Prelude.{
  ℕ, zero, suc, ◌+◌, Bool, true, false, Option, none, some, List, [], ◌∷◌, ◌++◌, reverse, length,
  if◌then◌else◌,
}
use fred_rs.Text.{Str, Bytes, text, bytes_eq}
use fred_rs.Error.{RedisErrorKind, Result, ok, err, fail}
use fred_rs.Value.{
  RedisValue, Entries, empty, entry, ℤ, pos, values, ok_text, insert, lookup, Floats,
}
use fred_rs.Value.Scalar.{to_key}

pub record MockCommand : Type 0 where
  pub cmd : Str
  pub subcommand : Option Str
  pub args : List RedisValue

-- `Echo::process_command`
unfoldable pub echo : MockCommand → Result RedisValue
echo command = ok (RedisValue.array (values command.args))

-- The default `process_transaction`: the answers of the commands, up to the first error, and the state after them.
unfoldable pub process_all {ℓ} :
    {S : Type ℓ}
    → (S → MockCommand → Result RedisValue × S)
    → S
    → List MockCommand
    → Result (List RedisValue) × S
process_all process s [] = (ok [], s)
process_all process s (c ∷ cs) =
    let first = process s c in
    let rest = process_all process first.1 cs in
    elim first.0 [
      | ok v ↦ (elim rest.0 [ ok vs ↦ ok (v ∷ vs) | err e ↦ err e ], rest.1)
      | err e ↦ (err e, first.1)
    ]

unfoldable pub process_transaction {ℓ} :
    {S : Type ℓ}
    → (S → MockCommand → Result RedisValue × S)
    → S
    → List MockCommand
    → Result RedisValue × S
unfolding process_all
process_transaction process s commands =
    let all = process_all process s commands in
    (elim all.0 [ ok vs ↦ ok (RedisValue.array (values vs)) | err e ↦ err e ], all.1)
