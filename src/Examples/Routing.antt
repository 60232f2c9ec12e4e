-- ===== src/Examples/Routing.antt =====
-- A cluster of three nodes, as in the tests of src/protocol/cluster.rs.
use fred_rs.Prelude.{ℕ, ◌≡◌, refl, Bool, none, some, List, [], ◌∷◌, inl, inr, arith}
use fred_rs.Text.{Str, bytes_eq}
use fred_rs.Error.{ok}
use fred_rs.Machine.{debug, release, done, panicked, usize_add, usize_sub}
use fred_rs.Value.{RedisValue, Floats}
use fred_rs.Cluster.Types.{Server, SlotRange, ClusterRouting}
use fred_rs.Cluster.Address.{new_server}
use fred_rs.Cluster.Search.{binary_search, search_loop}
use fred_rs.Cluster.Search.Spec.{IsTable}
use fred_rs.Cluster.Search.Correct.{Ends, binary_search-Ends}
use fred_rs.Cluster.Routing.{get_server, rebuild}
use fred_rs.Cluster.Routing.Lookup.{get_server-Ends}
use fred_rs.Cluster.Routing.Rebuild.{IsPartition, rebuild-IsTable, get_server-rebuild}
use fred_rs.Cluster.Slots.{parse_cluster_slots}
use fred_rs.Cluster.Slots.Encode.{slots_reply, parse_cluster_slots-reply, Reported}

abbrev pub host : Str
host = b'h' ∷ []

abbrev range : ℕ → ℕ → ℕ → SlotRange
range start end port = record { start = start; end = end; primary = new_server host port; id = [] }

abbrev ordered : List SlotRange
ordered = range 1 5460 30001 ∷ range 5461 10922 30002 ∷ range 10923 16383 30003 ∷ []

abbrev pub shuffled : List SlotRange
shuffled = range 5461 10922 30002 ∷ range 10923 16383 30003 ∷ range 1 5460 30001 ∷ []

abbrev pub table : ClusterRouting
table = record { slots = ordered }

abbrev pub rename : Server → Server
rename s = record s { tls_server_name = some host }

abbrev pub floats : Floats
floats = record { f64_to_string = λ f. []; f64_parse = λ s. none; f64_of_i64 = λ i. 0 }

abbrev pub is_ip : Str → Bool
is_ip s = bytes_eq s (b'1' ∷ [])

ordered-IsTable : IsTable ordered
ordered-IsTable = (
  omega arith,
  (omega arith, (omega arith, tt)),
  (omega arith, (omega arith, tt), (omega arith, tt, tt)),
)

pub shuffled-IsPartition : IsPartition shuffled
shuffled-IsPartition = (
  omega arith,
  (inl (omega arith), (inr (omega arith), tt)),
  (omega arith, (inr (omega arith), tt), (omega arith, tt, tt)),
)

get_server_found : get_server release table 12000 ≡ done (some (new_server host 30003))
unfolding get_server binary_search search_loop usize_add usize_sub
get_server_found = refl

get_server_debug : get_server debug table 0 ≡ panicked
unfolding get_server binary_search search_loop usize_add usize_sub
get_server_debug = refl

get_server-Ends_example : get_server debug table 0 ≡ panicked
get_server-Ends_example = get_server-Ends debug table 0 ordered-IsTable (omega arith) (omega arith)

binary_search-Ends_example : Ends debug ordered 12000 (binary_search debug ordered 12000)
binary_search-Ends_example =
    binary_search-Ends debug ordered 12000 ordered-IsTable (omega arith) (omega arith) (omega arith)

rebuild-IsTable_example : IsTable (rebuild rename shuffled).slots
rebuild-IsTable_example = rebuild-IsTable rename shuffled shuffled-IsPartition

get_server-rebuild_example :
    get_server release (rebuild rename shuffled) 12000
    ≡ done (some (rename (new_server host 30003)))
get_server-rebuild_example =
    get_server-rebuild rename shuffled 12000 shuffled-IsPartition (omega arith) (omega arith)

abbrev reported : List Reported
reported = (range 1 5460 30001, RedisValue.null ∷ []) ∷ (range 5461 16383 30002, []) ∷ []

parse_cluster_slots-reply_example :
    parse_cluster_slots floats is_ip (slots_reply reported) host
    ≡ ok (range 1 5460 30001 ∷ range 5461 16383 30002 ∷ [])
parse_cluster_slots-reply_example = parse_cluster_slots-reply floats is_ip host reported (
  (omega arith, omega arith, omega arith, refl),
  ((omega arith, omega arith, omega arith, refl), tt),
)
