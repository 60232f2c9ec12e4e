-- ===== src/Router/Transactions.antt =====
-- src/router/transactions.rs: a transaction is written command by command to one server, then ended by EXEC. It starts
-- again after a lost connection or a redirection.
pub mod Run
pub mod Attempts
pub mod Answers
pub mod Ending
pub mod Moved
use fred_rs.Prelude.{
  ℕ, zero, suc, Bool, true, false, Option, none, some, List, [], ◌∷◌, ◌++◌, leb, if◌then◌else◌,
}
use fred_rs.Text.{Str}
use fred_rs.Error.{RedisErrorKind, RedisError, Result, ok, err, fail}
use fred_rs.Machine.{Profile, Outcome, done, exhausted, ◌>>=◌, u32_add}
use fred_rs.Cluster.Types.{Server}
use fred_rs.Cluster.Address.{ClusterErrorKind}
use fred_rs.Command.Kind.{RedisCommandKind, ClusterHash}
use fred_rs.Command.Request.{RedisCommand, ResponseKind}
use fred_rs.Command.Request

-- `RouterResponse` of src/protocol/command.rs, without the commands that it gives back.
pub data RouterResponse {ℓ} (Frame : Type ℓ) : Type ℓ where
  continue : RouterResponse Frame
  ask moved : (slot : ℕ) (server : Server) → RouterResponse Frame
  connection_closed transaction_error : RedisError → RouterResponse Frame
  transaction_result : Frame → RouterResponse Frame

pub data TransactionResponse {ℓ} (Frame : Type ℓ) : Type ℓ where
  retry : RedisError → TransactionResponse Frame
  redirection : ClusterErrorKind → (slot : ℕ) (server : Server) → TransactionResponse Frame
  finished : Frame → TransactionResponse Frame
  continue : TransactionResponse Frame

-- What a transaction uses of the router, each call with the state after it: the choice of a connection, the write of one
-- command, the answer that comes back for it, the recovery of the connections, and the text of a redirection in an error.
pub record Link {ℓ κ} (S : Type ℓ) (Frame : Type κ) : Type (ℓ ⊔ κ) where
  pub find_connection : S → RedisCommand → Option Server
  pub write_once : S → RedisCommand → Server → Result (Unit {0}) × S
  pub response : S → Result (RouterResponse Frame) × S
  pub sync_cluster : S → Result (Unit {0}) × S
  pub reconnect : S → Result (Unit {0}) × S
  pub redirect : S → ClusterErrorKind → ℕ → Server → Result (Unit {0}) × S
  pub redirection_text : ClusterErrorKind → ℕ → Server → Str

-- What a transaction does that others see. `lost` is the search for another connection where none was found.
pub data Event {ℓ} (Frame : Type ℓ) : Type ℓ where
  sent : Server → RedisCommand → Event Frame
  replied : Result Frame → Event Frame
  reconnecting lost : Event Frame
  redirecting : ClusterErrorKind → ℕ → Server → Event Frame

-- How a round of the outer loop ends: the transaction is over, or a recovery failed, or it starts again.
pub data Round : Type 0 where
  over : Round
  failed : RedisError → Round
  again : List RedisCommand → Round

-- `RedisCommand::duplicate` with `ResponseKind::Skip`.
abbrev pub duplicate : RedisCommand → RedisCommand
duplicate c = record c { response = ResponseKind.skip }

abbrev ending : RedisCommandKind → ℕ → RedisCommand
ending kind id = record (Request.new kind []) {
  pipelined = false;
  skip_backpressure = true;
  transaction_id = some id;
}

-- The commands of `send_exec` and `send_discard`.
abbrev pub exec : ℕ → RedisCommand
exec id = ending RedisCommandKind.exec id

abbrev pub discard : ℕ → RedisCommand
discard id = ending RedisCommandKind.discard id

unfoldable pub update_hash_slot : ℕ → List RedisCommand → List RedisCommand
update_hash_slot slot [] = []
update_hash_slot slot (c ∷ cs) =
    record c { hasher = ClusterHash.custom slot } ∷ update_hash_slot slot cs
