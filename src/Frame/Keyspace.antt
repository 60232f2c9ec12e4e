-- ===== src/Frame/Keyspace.antt =====
-- `parse_keyspace_notification` of src/router/responses.rs.
use mathlib.Core.List.{append_assoc}
use fred_rs.Prelude.{ℕ, ◌≡◌, refl, sym, ◌≤◌, Option, none, some, ◌∷◌, ◌++◌, if◌then◌else◌}
use fred_rs.Text.{Str, Bytes, text, starts_with, to_string, parse_unsigned}
use fred_rs.Text.Keyspace.{
  splitn_two, splitn_two-joined, without_dunder, without_dunder-to_string, to_string-dunder-Lacks,
  dunder,
}
use fred_rs.Text.Decimal.{parse_unsigned-to_string}
use fred_rs.Error.{Result, ok, err}
use fred_rs.Value.{RedisValue, Floats}
use fred_rs.Value.Scalar.{to_key, as_string}

-- `KeyspaceEvent` of src/types/misc.rs.
pub record KeyspaceEvent : Type 0 where
  pub db : ℕ
  pub key : Bytes
  pub operation : Str

abbrev pub keyspace_prefix : Str
keyspace_prefix = text "__keyspace@"

abbrev pub keyevent_prefix : Str
keyevent_prefix = text "__keyevent@"

module _ (floats : Floats) where
  -- The database and what stands behind it, in the second part of the channel.
  abbrev with_rest : Option ℕ → Str → Option (ℕ × Str)
  with_rest none rest = none
  with_rest (some db) rest = some (db, rest)

  abbrev db_of : Option (Str × Str) → Option (ℕ × Str)
  db_of none = none
  db_of (some (db, rest)) = with_rest (parse_unsigned 255 (without_dunder db)) rest

  abbrev suffix_of : Option (Str × Str) → Option (ℕ × Str)
  suffix_of none = none
  suffix_of (some (prefix, rest)) = db_of (splitn_two b':' rest)

  abbrev keyevent : Option (ℕ × Str) → Result Bytes → Option KeyspaceEvent
  keyevent none key = none
  keyevent (some (db, operation)) (err e) = none
  keyevent (some (db, operation)) (ok key) =
      some (record { db = db; key = key; operation = operation })

  abbrev keyspace : Option (ℕ × Str) → Option Str → Option KeyspaceEvent
  keyspace none operation = none
  keyspace (some (db, key)) none = none
  keyspace (some (db, key)) (some operation) =
      some (record { db = db; key = key; operation = operation })

  unfoldable pub parse_keyspace_notification : Str → RedisValue → Option KeyspaceEvent
  parse_keyspace_notification channel message =
      if starts_with channel keyevent_prefix
      then keyevent (suffix_of (splitn_two b'@' channel)) (to_key floats message)
      else if starts_with channel keyspace_prefix
      then keyspace (suffix_of (splitn_two b'@' channel)) (as_string floats message)
      else none

  -- The part of a channel behind the prefix, as the server writes it.
  abbrev pub notified : ℕ → Str → Str
  notified db rest = to_string db ++ (dunder ++ b':' ∷ rest)

  db_of-notified :
      (db : ℕ) (rest : Str)
      → db ≤ 255
      → db_of (splitn_two b':' (notified db rest)) ≡ some (db, rest)
  db_of-notified db rest h =
      rw
        (
          sym (append_assoc (to_string db) dunder (b':' ∷ rest)),
          splitn_two-joined b':' (to_string db ++ dunder) rest (to_string-dunder-Lacks db),
          without_dunder-to_string db,
          parse_unsigned-to_string 255 db h,
        )
        refl

  -- A notification is read back from either channel: the database, the key and the operation, where the channel names the
  -- one and the message holds the other. The database is at most 255, and the key and the operation may hold any
  -- character, also those that separate the parts of a channel.
  pub parse_keyspace_notification-notified :
      (db : ℕ) (key operation : Str)
      → db ≤ 255
      → (parse_keyspace_notification
            (keyspace_prefix ++ notified db key)
            (RedisValue.string operation)
          ≡ some (record { db = db; key = key; operation = operation }))
        × (parse_keyspace_notification
              (keyevent_prefix ++ notified db operation)
              (RedisValue.bytes key)
            ≡ some (record { db = db; key = key; operation = operation }))
  unfolding parse_keyspace_notification starts_with text splitn_two as_string to_key
  parse_keyspace_notification-notified db key operation h =
      (rw (db_of-notified db key h) refl, rw (db_of-notified db operation h) refl)
