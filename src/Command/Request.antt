-- ===== src/Command/Request.antt =====
-- `RedisCommand` of src/protocol/command.rs: a command with its arguments and the state that follows it to the server.
-- Left out are the clocks, the traces, the debug counter, the timeout flag and the channel to the router.
pub mod Attempts
pub mod Slots
use fred_rs.Prelude.{
  ℕ, ◌+◌, Bool, true, false, not, ◌&&◌, ◌||◌, Option, none, some, List, [], ◌∷◌, ltb, leb,
  if◌then◌else◌,
}
use fred_rs.Text.{Bytes}
use fred_rs.Error.{RedisErrorKind, Result, ok, err, fail}
use fred_rs.Machine.{Profile, Outcome, done, ◌>>=◌, u32_add}
use fred_rs.Value.{RedisValue, Floats}
use fred_rs.Command.Kind.{RedisCommandKind, ClusterHash}
use fred_rs.Command.Policy.{is_blocking, is_all_cluster_nodes, custom_hash_slot, can_pipeline}
use fred_rs.Command.Hash.{hash, find_key, or}

-- The sender half of a channel, by number.
abbrev pub Sender : Type 0
Sender = ℕ

-- `KeyScanInner` and `ValueScanInner` of src/protocol/types.rs.
pub record KeyScanInner : Type 0 where
  pub hash_slot : Option ℕ
  pub cursor_idx : ℕ
  pub args : List RedisValue
  pub tx : Sender

pub record ValueScanInner : Type 0 where
  pub cursor_idx : ℕ
  pub args : List RedisValue
  pub tx : Sender

-- `ResponseKind` of src/protocol/responders.rs. `multiple` and `buffer` name the cells that their clones share.
pub data ResponseKind : Type 0 where
  skip : ResponseKind
  respond : Option Sender → ResponseKind
  multiple : (expected : ℕ) (shared : ℕ) → ResponseKind
  buffer : (expected : ℕ) (shared : ℕ) (index : ℕ) → ResponseKind
  value_scan : ValueScanInner → ResponseKind
  key_scan : KeyScanInner → ResponseKind

pub record RedisCommand : Type 0 where
  pub kind : RedisCommandKind
  pub response : ResponseKind
  pub hasher : ClusterHash
  pub arguments : List RedisValue
  pub attempted : ℕ
  pub pipelined : Bool
  pub skip_backpressure : Bool
  pub transaction_id : Option ℕ
  pub use_replica : Bool

-- `RedisCommand::new`.
unfoldable pub new : RedisCommandKind → List RedisValue → RedisCommand
new kind args = record {
  kind = kind;
  response = ResponseKind.skip;
  hasher = ClusterHash.first_key;
  arguments = args;
  attempted = 0;
  pipelined = true;
  skip_backpressure = false;
  transaction_id = none;
  use_replica = false;
}

-- `RedisCommand::new_asking`.
unfoldable pub new_asking : ℕ → RedisCommand
new_asking hash_slot = record {
  kind = RedisCommandKind.asking;
  response = ResponseKind.skip;
  hasher = ClusterHash.custom hash_slot;
  arguments = [];
  attempted = 0;
  pipelined = false;
  skip_backpressure = true;
  transaction_id = none;
  use_replica = false;
}

abbrev pub is_none {ℓ} : {A : Type ℓ} → Option A → Bool
is_none none = true
is_none (some a) = false

-- The reads of a stream block on an argument, which clears `can_pipeline`.
unfoldable blocks_on_argument : RedisCommandKind → Bool → Bool
blocks_on_argument RedisCommandKind.xread pipelined = not pipelined
blocks_on_argument RedisCommandKind.xreadgroup pipelined = not pipelined
blocks_on_argument _ pipelined = false

unfoldable pub blocks_connection : RedisCommand → Bool
unfolding blocks_on_argument
blocks_connection c =
    is_none c.transaction_id && (is_blocking c.kind || blocks_on_argument c.kind c.pipelined)

-- `is_pipelined` is the client's setting.
unfoldable pub should_auto_pipeline : Bool → RedisCommand → Bool → Bool
unfolding blocks_connection
should_auto_pipeline is_pipelined c force =
    force
    || is_pipelined
      && c.pipelined
      && can_pipeline c.kind
      && not (blocks_connection c)
      && not (is_all_cluster_nodes c.kind)
      && is_none c.transaction_id

-- `has_policy` tells whether the client has a reconnection policy.
unfoldable pub should_send_write_error : ℕ → Bool → RedisCommand → Bool
should_send_write_error max_command_attempts has_policy c =
    leb max_command_attempts c.attempted || not has_policy

unfoldable pub set_try_once : ℕ → RedisCommand → RedisCommand
set_try_once max_command_attempts c = record c { attempted = max_command_attempts }

abbrev pub attempts_left : ℕ → RedisCommand → Result RedisCommand
attempts_left max c =
    if ltb 0 max && ltb max c.attempted
    then fail RedisErrorKind.unknown "Too many failed write attempts."
    else ok c

-- The result carries the changed command.
unfoldable pub incr_check_attempted : Profile → ℕ → RedisCommand → Outcome (Result RedisCommand)
incr_check_attempted p max c = do
  attempted ← u32_add p c.attempted 1
  done (attempts_left max (record c { attempted = attempted }))

unfoldable pub args : RedisCommand → List RedisValue
args c = elim c.response [
  | ResponseKind.value_scan inner ↦ inner.args
  | ResponseKind.key_scan inner ↦ inner.args
  | _ ↦ c.arguments
]

abbrev is_unsubscribe : RedisCommandKind → Bool
is_unsubscribe RedisCommandKind.unsubscribe = true
is_unsubscribe RedisCommandKind.punsubscribe = true
is_unsubscribe RedisCommandKind.sunsubscribe = true
is_unsubscribe _ = false

abbrev is_empty {ℓ} : {A : Type ℓ} → List A → Bool
is_empty [] = true
is_empty (a ∷ rest) = false

unfoldable pub has_no_responses : RedisCommand → Bool
has_no_responses c = is_unsubscribe c.kind && is_empty c.arguments

unfoldable pub scan_hash_slot : RedisCommand → Option ℕ
scan_hash_slot c = elim c.response [ ResponseKind.key_scan inner ↦ inner.hash_slot | _ ↦ none ]

unfoldable pub first_key : RedisCommand → Option Bytes
unfolding args
first_key c = find_key ClusterHash.first_key (args c)

-- `cluster_hash`: the slot of a custom command, else that of a scan, else by the policy.
unfoldable pub cluster_hash : Floats → (Bytes → ℕ) → RedisCommand → Option ℕ
unfolding scan_hash_slot args
cluster_hash floats keyslot c =
    or (or (custom_hash_slot c.kind) (scan_hash_slot c)) (hash floats keyslot c.hasher (args c))
