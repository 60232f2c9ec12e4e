-- ===== src/Cluster/Slots/Hostname.antt =====
-- Which host of a server block is used.
use fred_rs.Prelude.{Bool, Option, none, some, List, [], ◌∷◌, if◌then◌else◌}
use fred_rs.Text.{Str, text}
use fred_rs.Value.{RedisValue, values}

-- The first element of a block: nil, or a text.
abbrev host_value : Option Str → RedisValue
host_value none = RedisValue.null
host_value (some h) = RedisValue.string h

-- The rest of a block, with the metadata that newer servers add.
abbrev metadata_value : Option Str → List RedisValue
metadata_value none = []
metadata_value (some name) =
    RedisValue.array (values (RedisValue.string (text "hostname") ∷ RedisValue.string name ∷ []))
    ∷ []

abbrev pub block : Option Str → Option Str → RedisValue → RedisValue → List RedisValue
block host name port id = host_value host ∷ port ∷ id ∷ metadata_value name

-- A host name comes first, then the name in the metadata, then the address, then the default host.
abbrev best_host : (Str → Bool) → Option Str → Option Str → Str → Str
best_host is_ip none none default_host = default_host
best_host is_ip none (some name) default_host = name
best_host is_ip (some host) none default_host = host
best_host is_ip (some host) (some name) default_host = if is_ip host then name else host
