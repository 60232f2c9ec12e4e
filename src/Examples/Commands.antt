-- ===== src/Examples/Commands.antt =====
-- Commands: their names, slots, attempts and servers.
use fred_rs.Prelude.{not, ◌||◌, ℕ, ◌≡◌, refl, true, false, none, some, [], ◌∷◌, arith, suc}
use fred_rs.Text.{bytes_eq, Bytes}
use fred_rs.Error.{ok}
use fred_rs.Machine.{release, done}
use fred_rs.Value.{RedisValue, pos}
use fred_rs.Cluster.Address.{new_server}
use fred_rs.Cluster.Routing.{rebuild}
use fred_rs.Command.Kind.{RedisCommandKind, ClusterHash}
use fred_rs.Command.DebugName.{to_str_debug}
use fred_rs.Command.Arguments.{disallow_nested_values, all_sent, disallow_nested_values-sent}
use fred_rs.Command.Names.{words, to_str_debug-words, is_misspelled}
use fred_rs.Command.Policy.{
  use_random_cluster_node, custom_hash_slot, is_all_cluster_nodes, can_pipeline, is_blocking,
  closes_connection, is_eval, pipelines,
}
use fred_rs.Command.Hash.{hash}
use fred_rs.Command.Request.{
  RedisCommand, ResponseKind, cluster_hash, scan_hash_slot, args, should_auto_pipeline,
  blocks_connection,
}
use fred_rs.Command.Request.Slots.{should_auto_pipeline-safe}
use fred_rs.Backchannel.{Backchannel, find_server}
use fred_rs.Backchannel.Choice.{find_server-owner}
use fred_rs.Examples.Routing.{host, shuffled, rename, floats, shuffled-IsPartition}

-- The length of the key stands for its slot.
abbrev keyslot : Bytes → ℕ
keyslot [] = 0
keyslot (c ∷ cs) = suc (keyslot cs)

abbrev key : Bytes
key = b'a' ∷ b'b' ∷ []

abbrev get_key : RedisCommand
get_key = record {
  kind = RedisCommandKind.get;
  response = ResponseKind.skip;
  hasher = ClusterHash.first_key;
  arguments = RedisValue.integer (pos 1) ∷ RedisValue.bytes key ∷ [];
  attempted = 0;
  pipelined = true;
  skip_backpressure = false;
  transaction_id = none;
  use_replica = false;
}

abbrev dbsize : RedisCommand
dbsize = record get_key { kind = RedisCommandKind.db_size; arguments = [] }

abbrev backchannel : Backchannel
backchannel = record {
  transport = some (new_server host 30001);
  blocked = some (new_server host 30002);
  connection_ids = [];
}

to_str_debug-words_example :
    bytes_eq
      (to_str_debug RedisCommandKind.cluster_del_slots)
      (words RedisCommandKind.cluster_del_slots)
    ≡ not (
        is_all_cluster_nodes RedisCommandKind.cluster_del_slots
        || is_misspelled RedisCommandKind.cluster_del_slots)
to_str_debug-words_example = to_str_debug-words RedisCommandKind.cluster_del_slots

should_auto_pipeline-safe_example :
    (true ≡ true)
    × (blocks_connection get_key ≡ false)
    × (closes_connection RedisCommandKind.get ≡ false)
    × (is_eval RedisCommandKind.get ≡ false)
    × (is_all_cluster_nodes RedisCommandKind.get ≡ false)
    × (get_key.transaction_id ≡ none)
unfolding should_auto_pipeline can_pipeline pipelines is_blocking closes_connection
    is_all_cluster_nodes
should_auto_pipeline-safe_example = should_auto_pipeline-safe true get_key refl

get_key_slot : cluster_hash floats keyslot get_key ≡ some 2
unfolding cluster_hash custom_hash_slot scan_hash_slot hash args
get_key_slot = refl

find_server-owner_example :
    find_server floats keyslot release true
      (some (rebuild rename shuffled))
      backchannel
      get_key
      false
    ≡ done (ok (rename (new_server host 30001)))
unfolding use_random_cluster_node
find_server-owner_example =
    find_server-owner floats keyslot rename shuffled backchannel get_key 2 shuffled-IsPartition
      (omega arith) (omega arith) refl get_key_slot

disallow_nested_values-sent_example :
    disallow_nested_values get_key ≡ all_sent floats (args get_key)
disallow_nested_values-sent_example = disallow_nested_values-sent floats get_key
