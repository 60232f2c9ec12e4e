-- ===== src/Command/Kind.antt =====
-- `RedisCommandKind` of src/protocol/command.rs, with the hashing policy of src/protocol/hashers.rs and
-- `CustomCommand` of src/types/misc.rs. A leading underscore of a Rust name is left out.
use fred_rs.Prelude.{ℕ, Bool}
use fred_rs.Text.{Str}

pub data RespVersion : Type 0 where
  resp2 resp3 : RespVersion

-- `Custom` carries a hash slot.
pub data ClusterHash : Type 0 where
  first_key first_value random : ClusterHash
  offset custom : ℕ → ClusterHash

pub record CustomCommand : Type 0 where
  pub cmd : Str
  pub cluster_hash : ClusterHash
  pub is_blocking : Bool

pub data RedisCommandKind : Type 0 where
  acl_load acl_save acl_list acl_users acl_get_user acl_set_user acl_del_user : RedisCommandKind
  acl_cat acl_gen_pass acl_who_am_i acl_log acl_help append auth asking : RedisCommandKind
  bgre_write_aof bg_save bit_count bit_field bit_op bit_pos bl_pop bl_move : RedisCommandKind
  br_pop br_pop_l_push bz_pop_min bz_pop_max blm_pop bzm_pop client_id : RedisCommandKind
  client_info client_kill client_list client_get_name client_get_redir : RedisCommandKind
  client_pause client_unpause client_unblock client_reply client_setname : RedisCommandKind
  cluster_add_slots cluster_count_failure_reports cluster_count_keys_in_slot : RedisCommandKind
  cluster_del_slots cluster_fail_over cluster_forget cluster_flush_slots : RedisCommandKind
  cluster_get_keys_in_slot cluster_info cluster_key_slot cluster_meet : RedisCommandKind
  cluster_my_id cluster_nodes cluster_replicate cluster_reset : RedisCommandKind
  cluster_save_config cluster_set_config_epoch cluster_bump_epoch : RedisCommandKind
  cluster_set_slot cluster_replicas cluster_slots config_get config_rewrite : RedisCommandKind
  config_set config_reset_stat copy db_size decr decr_by del discard dump : RedisCommandKind
  echo eval eval_sha exec exists expire expire_at failover flush_all flush_db : RedisCommandKind
  geo_add geo_hash geo_pos geo_dist geo_radius geo_radius_by_member : RedisCommandKind
  geo_search geo_search_store get get_bit get_del get_range get_set h_del : RedisCommandKind
  h_exists h_get h_get_all h_incr_by h_incr_by_float h_keys h_len hm_get : RedisCommandKind
  hm_set h_set h_set_nx h_str_len h_vals h_rand_field incr incr_by : RedisCommandKind
  incr_by_float info keys last_save l_index l_insert l_len l_move l_pop l_pos : RedisCommandKind
  l_push l_push_x l_range lm_pop l_rem l_set l_trim lcs memory_doctor : RedisCommandKind
  memory_help memory_malloc_stats memory_purge memory_stats memory_usage mget : RedisCommandKind
  migrate monitor move mset msetnx multi object persist pexpire pexpireat : RedisCommandKind
  pfadd pfcount pfmerge ping psetex psubscribe pubsub pttl publish : RedisCommandKind
  punsubscribe quit randomkey readonly readwrite rename renamenx restore role : RedisCommandKind
  rpop rpoplpush rpush rpushx sadd save scard sdiff sdiffstore select : RedisCommandKind
  sentinel set setbit setex setnx setrange shutdown sinter sinterstore : RedisCommandKind
  sismember replicaof slowlog smembers smismember smove sort spop srandmember : RedisCommandKind
  srem strlen subscribe sunion sunionstore swapdb sync time touch ttl type : RedisCommandKind
  unsubscribe unlink unwatch wait watch xinfo_consumers xinfo_groups : RedisCommandKind
  xinfo_stream xadd xtrim xdel xrange xrevrange xlen xread xgroupcreate : RedisCommandKind
  xgroup_create_consumer xgroup_del_consumer xgroup_destroy xgroup_set_id : RedisCommandKind
  xreadgroup xack xclaim xautoclaim xpending zadd zcard zcount zdiff : RedisCommandKind
  zdiffstore zincrby zinter zinterstore zlexcount zrandmember zrange : RedisCommandKind
  zrangestore zrangebylex zrangebyscore zrank zrem zremrangebylex : RedisCommandKind
  zremrangebyrank zremrangebyscore zrevrange zrevrangebylex zrevrangebyscore : RedisCommandKind
  zrevrank zscore zmscore zunion zunionstore zpopmax zpopmin zmpop : RedisCommandKind
  script_load script_debug script_exists script_flush script_kill scan sscan : RedisCommandKind
  hscan zscan spublish ssubscribe sunsubscribe fcall fcall_ro function_delete : RedisCommandKind
  function_dump function_flush function_kill function_list function_load : RedisCommandKind
  function_restore function_stats auth_all_cluster flush_all_cluster : RedisCommandKind
  script_flush_cluster script_load_cluster script_kill_cluster : RedisCommandKind
  function_load_cluster function_flush_cluster function_delete_cluster : RedisCommandKind
  function_restore_cluster : RedisCommandKind
  hello : RespVersion → RedisCommandKind
  hello_all_cluster : RespVersion → RedisCommandKind
  custom : CustomCommand → RedisCommandKind
