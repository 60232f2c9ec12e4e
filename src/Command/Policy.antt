-- ===== src/Command/Policy.antt =====
-- The tests on a command's kind in src/protocol/command.rs.
use fred_rs.Prelude.{ℕ, Bool, true, false, ◌||◌, Option, none, some, if◌then◌else◌}
use fred_rs.Command.Kind.{RedisCommandKind, ClusterHash}

unfoldable is_scan : RedisCommandKind → Bool
is_scan RedisCommandKind.scan = true
is_scan _ = false

unfoldable is_hscan : RedisCommandKind → Bool
is_hscan RedisCommandKind.hscan = true
is_hscan _ = false

unfoldable is_sscan : RedisCommandKind → Bool
is_sscan RedisCommandKind.sscan = true
is_sscan _ = false

unfoldable is_zscan : RedisCommandKind → Bool
is_zscan RedisCommandKind.zscan = true
is_zscan _ = false

unfoldable is_hello : RedisCommandKind → Bool
is_hello (RedisCommandKind.hello _) = true
is_hello (RedisCommandKind.hello_all_cluster _) = true
is_hello _ = false

unfoldable pub is_auth : RedisCommandKind → Bool
is_auth RedisCommandKind.auth = true
is_auth _ = false

unfoldable is_value_scan : RedisCommandKind → Bool
is_value_scan RedisCommandKind.zscan = true
is_value_scan RedisCommandKind.hscan = true
is_value_scan RedisCommandKind.sscan = true
is_value_scan _ = false

unfoldable is_multi : RedisCommandKind → Bool
is_multi RedisCommandKind.multi = true
is_multi _ = false

unfoldable pub is_exec : RedisCommandKind → Bool
is_exec RedisCommandKind.exec = true
is_exec _ = false

unfoldable pub is_discard : RedisCommandKind → Bool
is_discard RedisCommandKind.discard = true
is_discard _ = false

unfoldable pub ends_transaction : RedisCommandKind → Bool
ends_transaction RedisCommandKind.exec = true
ends_transaction RedisCommandKind.discard = true
ends_transaction _ = false

unfoldable is_mset : RedisCommandKind → Bool
is_mset RedisCommandKind.mset = true
is_mset RedisCommandKind.msetnx = true
is_mset _ = false

unfoldable is_custom : RedisCommandKind → Bool
is_custom (RedisCommandKind.custom _) = true
is_custom _ = false

unfoldable pub closes_connection : RedisCommandKind → Bool
closes_connection RedisCommandKind.quit = true
closes_connection RedisCommandKind.shutdown = true
closes_connection _ = false

unfoldable pub use_random_cluster_node : RedisCommandKind → Bool
use_random_cluster_node RedisCommandKind.publish = true
use_random_cluster_node RedisCommandKind.subscribe = true
use_random_cluster_node RedisCommandKind.unsubscribe = true
use_random_cluster_node RedisCommandKind.psubscribe = true
use_random_cluster_node RedisCommandKind.punsubscribe = true
use_random_cluster_node RedisCommandKind.ping = true
use_random_cluster_node RedisCommandKind.info = true
use_random_cluster_node RedisCommandKind.scan = true
use_random_cluster_node RedisCommandKind.flush_all = true
use_random_cluster_node RedisCommandKind.flush_db = true
use_random_cluster_node _ = false

unfoldable pub is_blocking : RedisCommandKind → Bool
is_blocking RedisCommandKind.bl_pop = true
is_blocking RedisCommandKind.br_pop = true
is_blocking RedisCommandKind.br_pop_l_push = true
is_blocking RedisCommandKind.bl_move = true
is_blocking RedisCommandKind.bz_pop_min = true
is_blocking RedisCommandKind.bz_pop_max = true
is_blocking RedisCommandKind.blm_pop = true
is_blocking RedisCommandKind.bzm_pop = true
is_blocking RedisCommandKind.fcall = true
is_blocking RedisCommandKind.fcall_ro = true
is_blocking RedisCommandKind.wait = true
is_blocking RedisCommandKind.xread = false
is_blocking RedisCommandKind.xreadgroup = false
is_blocking (RedisCommandKind.custom kind) = kind.is_blocking
is_blocking _ = false

unfoldable pub is_all_cluster_nodes : RedisCommandKind → Bool
is_all_cluster_nodes RedisCommandKind.flush_all_cluster = true
is_all_cluster_nodes RedisCommandKind.auth_all_cluster = true
is_all_cluster_nodes RedisCommandKind.script_flush_cluster = true
is_all_cluster_nodes RedisCommandKind.script_kill_cluster = true
is_all_cluster_nodes (RedisCommandKind.hello_all_cluster _) = true
is_all_cluster_nodes RedisCommandKind.script_load_cluster = true
is_all_cluster_nodes RedisCommandKind.function_flush_cluster = true
is_all_cluster_nodes RedisCommandKind.function_delete_cluster = true
is_all_cluster_nodes RedisCommandKind.function_restore_cluster = true
is_all_cluster_nodes RedisCommandKind.function_load_cluster = true
is_all_cluster_nodes _ = false

unfoldable pub should_flush : RedisCommandKind → Bool
should_flush RedisCommandKind.quit = true
should_flush RedisCommandKind.shutdown = true
should_flush RedisCommandKind.ping = true
should_flush RedisCommandKind.auth = true
should_flush (RedisCommandKind.hello _) = true
should_flush RedisCommandKind.exec = true
should_flush RedisCommandKind.discard = true
should_flush RedisCommandKind.eval = true
should_flush RedisCommandKind.eval_sha = true
should_flush RedisCommandKind.fcall = true
should_flush RedisCommandKind.fcall_ro = true
should_flush (RedisCommandKind.custom _) = true
should_flush _ = false

unfoldable pub is_eval : RedisCommandKind → Bool
is_eval RedisCommandKind.eval_sha = true
is_eval RedisCommandKind.eval = true
is_eval RedisCommandKind.fcall = true
is_eval RedisCommandKind.fcall_ro = true
is_eval _ = false

-- The match of `can_pipeline`.
unfoldable pub pipelines : RedisCommandKind → Bool
pipelines RedisCommandKind.psubscribe = false
pipelines RedisCommandKind.punsubscribe = false
pipelines RedisCommandKind.ssubscribe = false
pipelines RedisCommandKind.sunsubscribe = false
pipelines RedisCommandKind.eval = false
pipelines RedisCommandKind.eval_sha = false
pipelines RedisCommandKind.auth = false
pipelines RedisCommandKind.fcall = false
pipelines RedisCommandKind.fcall_ro = false
pipelines (RedisCommandKind.hello _) = false
pipelines _ = true

unfoldable pub can_pipeline : RedisCommandKind → Bool
unfolding is_blocking closes_connection pipelines
can_pipeline k = if is_blocking k || closes_connection k then false else pipelines k

unfoldable slot_of : ClusterHash → Option ℕ
slot_of (ClusterHash.custom slot) = some slot
slot_of _ = none

unfoldable pub custom_hash_slot : RedisCommandKind → Option ℕ
unfolding slot_of
custom_hash_slot (RedisCommandKind.custom kind) = slot_of kind.cluster_hash
custom_hash_slot _ = none
