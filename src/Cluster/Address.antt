-- ===== src/Cluster/Address.antt =====
-- Server addresses and redirections as text: `Server` of src/protocol/types.rs, `server_to_parts` and
-- `parse_cluster_error` of src/protocol/utils.rs, `ClusterErrorKind` of src/protocol/command.rs.
pub mod Roundtrip
use fred_rs.Prelude.{ℕ, Option, none, some, List, [], ◌∷◌, ◌++◌, length, ltb, ◌==◌, if◌then◌else◌}
use fred_rs.Text.{Str, text, bytes_eq, split, trim, parse_u16, to_string}
use fred_rs.Error.{RedisErrorKind, Result, ok, err, fail, ◌>>=◌}
use fred_rs.Cluster.Types.{Server}

abbrev colon : ℕ
colon = b':'

abbrev space : ℕ
space = b' '

-- `Server::new`.
abbrev pub new_server : Str → ℕ → Server
new_server host port = record { host = host; port = port; tls_server_name = none }

-- `Display for Server`.
unfoldable pub display : Server → Str
display s = s.host ++ (colon ∷ to_string s.port)

abbrev with_port : Str → Option ℕ → Option Server
with_port host none = none
with_port host (some port) = some (new_server host port)

abbrev two_parts : List Str → Option Server
two_parts (host ∷ port ∷ []) = with_port host (parse_u16 port)
two_parts _ = none

-- `Server::from_str`.
unfoldable pub from_str : Str → Option Server
from_str s = two_parts (split colon (trim s))

-- `ParseIntError` as a `RedisError`.
abbrev pub parse_int {ℓ} : {A : Type ℓ} → Option A → Result A
parse_int none = fail RedisErrorKind.parse "Invalid integer string."
parse_int (some n) = ok n

abbrev parts_of : List Str → Result (Str × ℕ)
parts_of (host ∷ port ∷ rest) = do p ← parse_int (parse_u16 port); ok (host, p)
parts_of _ = fail RedisErrorKind.io "Invalid server."

unfoldable pub server_to_parts : Str → Result (Str × ℕ)
server_to_parts server = parts_of (split colon server)

abbrev pub host_or : Str → Str → Str
host_or [] default_host = default_host
host_or (c ∷ s) default_host = c ∷ s

abbrev server_of : Str → Result (Str × ℕ) → Option Server
server_of default_host (ok (host, port)) = some (new_server (host_or host default_host) port)
server_of default_host (err e) = none

-- `Server::from_parts`.
unfoldable pub from_parts : Str → Str → Option Server
from_parts server default_host = server_of default_host (server_to_parts server)

pub data ClusterErrorKind : Type 0 where
  moved ask : ClusterErrorKind

-- `Display for ClusterErrorKind`.
unfoldable pub error_kind_str : ClusterErrorKind → Str
error_kind_str moved = text "MOVED"
error_kind_str ask = text "ASK"

-- `TryFrom<&str> for ClusterErrorKind`.
unfoldable pub error_kind_of : Str → Result ClusterErrorKind
error_kind_of value =
    if bytes_eq value (text "MOVED")
    then ok moved
    else if bytes_eq value (text "ASK")
    then ok ask
    else fail RedisErrorKind.protocol "Expected MOVED or ASK error."

abbrev redirection : List Str → Result (ClusterErrorKind × ℕ × Str)
redirection (kind ∷ slot ∷ server ∷ []) = do
  kind' ← error_kind_of kind
  slot' ← parse_int (parse_u16 slot)
  ok (kind', slot', server)
redirection _ = fail RedisErrorKind.protocol "Expected cluster error."

unfoldable pub parse_cluster_error : Str → Result (ClusterErrorKind × ℕ × Str)
parse_cluster_error s = redirection (split space s)
