-- ===== src/Command/WireName.antt =====
-- `cmd_str` of src/protocol/command.rs.
use fred_rs.Text.{Str, text}
use fred_rs.Command.Kind.{RedisCommandKind}

-- The first word that is sent to the server.
unfoldable pub cmd_str : RedisCommandKind → Str
cmd_str RedisCommandKind.acl_load = text "ACL"
cmd_str RedisCommandKind.acl_save = text "ACL"
cmd_str RedisCommandKind.acl_list = text "ACL"
cmd_str RedisCommandKind.acl_users = text "ACL"
cmd_str RedisCommandKind.acl_get_user = text "ACL"
cmd_str RedisCommandKind.acl_set_user = text "ACL"
cmd_str RedisCommandKind.acl_del_user = text "ACL"
cmd_str RedisCommandKind.acl_cat = text "ACL"
cmd_str RedisCommandKind.acl_gen_pass = text "ACL"
cmd_str RedisCommandKind.acl_who_am_i = text "ACL"
cmd_str RedisCommandKind.acl_log = text "ACL"
cmd_str RedisCommandKind.acl_help = text "ACL"
cmd_str RedisCommandKind.append = text "APPEND"
cmd_str RedisCommandKind.auth = text "AUTH"
cmd_str RedisCommandKind.asking = text "ASKING"
cmd_str RedisCommandKind.bgre_write_aof = text "BGREWRITEAOF"
cmd_str RedisCommandKind.bg_save = text "BGSAVE"
cmd_str RedisCommandKind.bit_count = text "BITCOUNT"
cmd_str RedisCommandKind.bit_field = text "BITFIELD"
cmd_str RedisCommandKind.bit_op = text "BITOP"
cmd_str RedisCommandKind.bit_pos = text "BITPOS"
cmd_str RedisCommandKind.bl_pop = text "BLPOP"
cmd_str RedisCommandKind.bl_move = text "BLMOVE"
cmd_str RedisCommandKind.br_pop = text "BRPOP"
cmd_str RedisCommandKind.br_pop_l_push = text "BRPOPLPUSH"
cmd_str RedisCommandKind.bz_pop_min = text "BZPOPMIN"
cmd_str RedisCommandKind.bz_pop_max = text "BZPOPMAX"
cmd_str RedisCommandKind.blm_pop = text "BLMPOP"
cmd_str RedisCommandKind.bzm_pop = text "BZMPOP"
cmd_str RedisCommandKind.client_id = text "CLIENT"
cmd_str RedisCommandKind.client_info = text "CLIENT"
cmd_str RedisCommandKind.client_kill = text "CLIENT"
cmd_str RedisCommandKind.client_list = text "CLIENT"
cmd_str RedisCommandKind.client_get_name = text "CLIENT"
cmd_str RedisCommandKind.client_get_redir = text "CLIENT"
cmd_str RedisCommandKind.client_pause = text "CLIENT"
cmd_str RedisCommandKind.client_unpause = text "CLIENT"
cmd_str RedisCommandKind.client_unblock = text "CLIENT"
cmd_str RedisCommandKind.client_reply = text "CLIENT"
cmd_str RedisCommandKind.client_setname = text "CLIENT"
cmd_str RedisCommandKind.cluster_add_slots = text "CLUSTER"
cmd_str RedisCommandKind.cluster_count_failure_reports = text "CLUSTER"
cmd_str RedisCommandKind.cluster_count_keys_in_slot = text "CLUSTER"
cmd_str RedisCommandKind.cluster_del_slots = text "CLUSTER"
cmd_str RedisCommandKind.cluster_fail_over = text "CLUSTER"
cmd_str RedisCommandKind.cluster_forget = text "CLUSTER"
cmd_str RedisCommandKind.cluster_flush_slots = text "CLUSTER"
cmd_str RedisCommandKind.cluster_get_keys_in_slot = text "CLUSTER"
cmd_str RedisCommandKind.cluster_info = text "CLUSTER"
cmd_str RedisCommandKind.cluster_key_slot = text "CLUSTER"
cmd_str RedisCommandKind.cluster_meet = text "CLUSTER"
cmd_str RedisCommandKind.cluster_my_id = text "CLUSTER"
cmd_str RedisCommandKind.cluster_nodes = text "CLUSTER"
cmd_str RedisCommandKind.cluster_replicate = text "CLUSTER"
cmd_str RedisCommandKind.cluster_reset = text "CLUSTER"
cmd_str RedisCommandKind.cluster_save_config = text "CLUSTER"
cmd_str RedisCommandKind.cluster_set_config_epoch = text "CLUSTER"
cmd_str RedisCommandKind.cluster_bump_epoch = text "CLUSTER"
cmd_str RedisCommandKind.cluster_set_slot = text "CLUSTER"
cmd_str RedisCommandKind.cluster_replicas = text "CLUSTER"
cmd_str RedisCommandKind.cluster_slots = text "CLUSTER"
cmd_str RedisCommandKind.config_get = text "CONFIG"
cmd_str RedisCommandKind.config_rewrite = text "CONFIG"
cmd_str RedisCommandKind.config_set = text "CONFIG"
cmd_str RedisCommandKind.config_reset_stat = text "CONFIG"
cmd_str RedisCommandKind.copy = text "COPY"
cmd_str RedisCommandKind.db_size = text "DBSIZE"
cmd_str RedisCommandKind.decr = text "DECR"
cmd_str RedisCommandKind.decr_by = text "DECRBY"
cmd_str RedisCommandKind.del = text "DEL"
cmd_str RedisCommandKind.discard = text "DISCARD"
cmd_str RedisCommandKind.dump = text "DUMP"
cmd_str RedisCommandKind.echo = text "ECHO"
cmd_str RedisCommandKind.eval = text "EVAL"
cmd_str RedisCommandKind.eval_sha = text "EVALSHA"
cmd_str RedisCommandKind.exec = text "EXEC"
cmd_str RedisCommandKind.exists = text "EXISTS"
cmd_str RedisCommandKind.expire = text "EXPIRE"
cmd_str RedisCommandKind.expire_at = text "EXPIREAT"
cmd_str RedisCommandKind.failover = text "FAILOVER"
cmd_str RedisCommandKind.flush_all = text "FLUSHALL"
cmd_str RedisCommandKind.flush_db = text "FLUSHDB"
cmd_str RedisCommandKind.geo_add = text "GEOADD"
cmd_str RedisCommandKind.geo_hash = text "GEOHASH"
cmd_str RedisCommandKind.geo_pos = text "GEOPOS"
cmd_str RedisCommandKind.geo_dist = text "GEODIST"
cmd_str RedisCommandKind.geo_radius = text "GEORADIUS"
cmd_str RedisCommandKind.geo_radius_by_member = text "GEORADIUSBYMEMBER"
cmd_str RedisCommandKind.geo_search = text "GEOSEARCH"
cmd_str RedisCommandKind.geo_search_store = text "GEOSEARCHSTORE"
cmd_str RedisCommandKind.get = text "GET"
cmd_str RedisCommandKind.get_bit = text "GETBIT"
cmd_str RedisCommandKind.get_del = text "GETDEL"
cmd_str RedisCommandKind.get_range = text "GETRANGE"
cmd_str RedisCommandKind.get_set = text "GETSET"
cmd_str RedisCommandKind.h_del = text "HDEL"
cmd_str RedisCommandKind.h_exists = text "HEXISTS"
cmd_str RedisCommandKind.h_get = text "HGET"
cmd_str RedisCommandKind.h_get_all = text "HGETALL"
cmd_str RedisCommandKind.h_incr_by = text "HINCRBY"
cmd_str RedisCommandKind.h_incr_by_float = text "HINCRBYFLOAT"
cmd_str RedisCommandKind.h_keys = text "HKEYS"
cmd_str RedisCommandKind.h_len = text "HLEN"
cmd_str RedisCommandKind.hm_get = text "HMGET"
cmd_str RedisCommandKind.hm_set = text "HMSET"
cmd_str RedisCommandKind.h_set = text "HSET"
cmd_str RedisCommandKind.h_set_nx = text "HSETNX"
cmd_str RedisCommandKind.h_str_len = text "HSTRLEN"
cmd_str RedisCommandKind.h_vals = text "HVALS"
cmd_str RedisCommandKind.h_rand_field = text "HRANDFIELD"
cmd_str RedisCommandKind.incr = text "INCR"
cmd_str RedisCommandKind.incr_by = text "INCRBY"
cmd_str RedisCommandKind.incr_by_float = text "INCRBYFLOAT"
cmd_str RedisCommandKind.info = text "INFO"
cmd_str RedisCommandKind.keys = text "KEYS"
cmd_str RedisCommandKind.last_save = text "LASTSAVE"
cmd_str RedisCommandKind.l_index = text "LINDEX"
cmd_str RedisCommandKind.l_insert = text "LINSERT"
cmd_str RedisCommandKind.l_len = text "LLEN"
cmd_str RedisCommandKind.l_move = text "LMOVE"
cmd_str RedisCommandKind.l_pop = text "LPOP"
cmd_str RedisCommandKind.l_pos = text "LPOS"
cmd_str RedisCommandKind.l_push = text "LPUSH"
cmd_str RedisCommandKind.l_push_x = text "LPUSHX"
cmd_str RedisCommandKind.l_range = text "LRANGE"
cmd_str RedisCommandKind.lm_pop = text "LMPOP"
cmd_str RedisCommandKind.l_rem = text "LREM"
cmd_str RedisCommandKind.l_set = text "LSET"
cmd_str RedisCommandKind.l_trim = text "LTRIM"
cmd_str RedisCommandKind.lcs = text "LCS"
cmd_str RedisCommandKind.memory_doctor = text "MEMORY"
cmd_str RedisCommandKind.memory_help = text "MEMORY"
cmd_str RedisCommandKind.memory_malloc_stats = text "MEMORY"
cmd_str RedisCommandKind.memory_purge = text "MEMORY"
cmd_str RedisCommandKind.memory_stats = text "MEMORY"
cmd_str RedisCommandKind.memory_usage = text "MEMORY"
cmd_str RedisCommandKind.mget = text "MGET"
cmd_str RedisCommandKind.migrate = text "MIGRATE"
cmd_str RedisCommandKind.monitor = text "MONITOR"
cmd_str RedisCommandKind.move = text "MOVE"
cmd_str RedisCommandKind.mset = text "MSET"
cmd_str RedisCommandKind.msetnx = text "MSETNX"
cmd_str RedisCommandKind.multi = text "MULTI"
cmd_str RedisCommandKind.object = text "OBJECT"
cmd_str RedisCommandKind.persist = text "PERSIST"
cmd_str RedisCommandKind.pexpire = text "PEXPIRE"
cmd_str RedisCommandKind.pexpireat = text "PEXPIREAT"
cmd_str RedisCommandKind.pfadd = text "PFADD"
cmd_str RedisCommandKind.pfcount = text "PFCOUNT"
cmd_str RedisCommandKind.pfmerge = text "PFMERGE"
cmd_str RedisCommandKind.ping = text "PING"
cmd_str RedisCommandKind.psetex = text "PSETEX"
cmd_str RedisCommandKind.psubscribe = text "PSUBSCRIBE"
cmd_str RedisCommandKind.pubsub = text "PUBSUB"
cmd_str RedisCommandKind.pttl = text "PTTL"
cmd_str RedisCommandKind.publish = text "PUBLISH"
cmd_str RedisCommandKind.punsubscribe = text "PUNSUBSCRIBE"
cmd_str RedisCommandKind.quit = text "QUIT"
cmd_str RedisCommandKind.randomkey = text "RANDOMKEY"
cmd_str RedisCommandKind.readonly = text "READONLY"
cmd_str RedisCommandKind.readwrite = text "READWRITE"
cmd_str RedisCommandKind.rename = text "RENAME"
cmd_str RedisCommandKind.renamenx = text "RENAMENX"
cmd_str RedisCommandKind.restore = text "RESTORE"
cmd_str RedisCommandKind.role = text "ROLE"
cmd_str RedisCommandKind.rpop = text "RPOP"
cmd_str RedisCommandKind.rpoplpush = text "RPOPLPUSH"
cmd_str RedisCommandKind.rpush = text "RPUSH"
cmd_str RedisCommandKind.rpushx = text "RPUSHX"
cmd_str RedisCommandKind.sadd = text "SADD"
cmd_str RedisCommandKind.save = text "SAVE"
cmd_str RedisCommandKind.scard = text "SCARD"
cmd_str RedisCommandKind.sdiff = text "SDIFF"
cmd_str RedisCommandKind.sdiffstore = text "SDIFFSTORE"
cmd_str RedisCommandKind.select = text "SELECT"
cmd_str RedisCommandKind.sentinel = text "SENTINEL"
cmd_str RedisCommandKind.set = text "SET"
cmd_str RedisCommandKind.setbit = text "SETBIT"
cmd_str RedisCommandKind.setex = text "SETEX"
cmd_str RedisCommandKind.setnx = text "SETNX"
cmd_str RedisCommandKind.setrange = text "SETRANGE"
cmd_str RedisCommandKind.shutdown = text "SHUTDOWN"
cmd_str RedisCommandKind.sinter = text "SINTER"
cmd_str RedisCommandKind.sinterstore = text "SINTERSTORE"
cmd_str RedisCommandKind.sismember = text "SISMEMBER"
cmd_str RedisCommandKind.replicaof = text "REPLICAOF"
cmd_str RedisCommandKind.slowlog = text "SLOWLOG"
cmd_str RedisCommandKind.smembers = text "SMEMBERS"
cmd_str RedisCommandKind.smismember = text "SMISMEMBER"
cmd_str RedisCommandKind.smove = text "SMOVE"
cmd_str RedisCommandKind.sort = text "SORT"
cmd_str RedisCommandKind.spop = text "SPOP"
cmd_str RedisCommandKind.srandmember = text "SRANDMEMBER"
cmd_str RedisCommandKind.srem = text "SREM"
cmd_str RedisCommandKind.strlen = text "STRLEN"
cmd_str RedisCommandKind.subscribe = text "SUBSCRIBE"
cmd_str RedisCommandKind.sunion = text "SUNION"
cmd_str RedisCommandKind.sunionstore = text "SUNIONSTORE"
cmd_str RedisCommandKind.swapdb = text "SWAPDB"
cmd_str RedisCommandKind.sync = text "SYNC"
cmd_str RedisCommandKind.time = text "TIME"
cmd_str RedisCommandKind.touch = text "TOUCH"
cmd_str RedisCommandKind.ttl = text "TTL"
cmd_str RedisCommandKind.type = text "TYPE"
cmd_str RedisCommandKind.unsubscribe = text "UNSUBSCRIBE"
cmd_str RedisCommandKind.unlink = text "UNLINK"
cmd_str RedisCommandKind.unwatch = text "UNWATCH"
cmd_str RedisCommandKind.wait = text "WAIT"
cmd_str RedisCommandKind.watch = text "WATCH"
cmd_str RedisCommandKind.xinfo_consumers = text "XINFO"
cmd_str RedisCommandKind.xinfo_groups = text "XINFO"
cmd_str RedisCommandKind.xinfo_stream = text "XINFO"
cmd_str RedisCommandKind.xadd = text "XADD"
cmd_str RedisCommandKind.xtrim = text "XTRIM"
cmd_str RedisCommandKind.xdel = text "XDEL"
cmd_str RedisCommandKind.xrange = text "XRANGE"
cmd_str RedisCommandKind.xrevrange = text "XREVRANGE"
cmd_str RedisCommandKind.xlen = text "XLEN"
cmd_str RedisCommandKind.xread = text "XREAD"
cmd_str RedisCommandKind.xgroupcreate = text "XGROUP"
cmd_str RedisCommandKind.xgroup_create_consumer = text "XGROUP"
cmd_str RedisCommandKind.xgroup_del_consumer = text "XGROUP"
cmd_str RedisCommandKind.xgroup_destroy = text "XGROUP"
cmd_str RedisCommandKind.xgroup_set_id = text "XGROUP"
cmd_str RedisCommandKind.xreadgroup = text "XREADGROUP"
cmd_str RedisCommandKind.xack = text "XACK"
cmd_str RedisCommandKind.xclaim = text "XCLAIM"
cmd_str RedisCommandKind.xautoclaim = text "XAUTOCLAIM"
cmd_str RedisCommandKind.xpending = text "XPENDING"
cmd_str RedisCommandKind.zadd = text "ZADD"
cmd_str RedisCommandKind.zcard = text "ZCARD"
cmd_str RedisCommandKind.zcount = text "ZCOUNT"
cmd_str RedisCommandKind.zdiff = text "ZDIFF"
cmd_str RedisCommandKind.zdiffstore = text "ZDIFFSTORE"
cmd_str RedisCommandKind.zincrby = text "ZINCRBY"
cmd_str RedisCommandKind.zinter = text "ZINTER"
cmd_str RedisCommandKind.zinterstore = text "ZINTERSTORE"
cmd_str RedisCommandKind.zlexcount = text "ZLEXCOUNT"
cmd_str RedisCommandKind.zrandmember = text "ZRANDMEMBER"
cmd_str RedisCommandKind.zrange = text "ZRANGE"
cmd_str RedisCommandKind.zrangestore = text "ZRANGESTORE"
cmd_str RedisCommandKind.zrangebylex = text "ZRANGEBYLEX"
cmd_str RedisCommandKind.zrangebyscore = text "ZRANGEBYSCORE"
cmd_str RedisCommandKind.zrank = text "ZRANK"
cmd_str RedisCommandKind.zrem = text "ZREM"
cmd_str RedisCommandKind.zremrangebylex = text "ZREMRANGEBYLEX"
cmd_str RedisCommandKind.zremrangebyrank = text "ZREMRANGEBYRANK"
cmd_str RedisCommandKind.zremrangebyscore = text "ZREMRANGEBYSCORE"
cmd_str RedisCommandKind.zrevrange = text "ZREVRANGE"
cmd_str RedisCommandKind.zrevrangebylex = text "ZREVRANGEBYLEX"
cmd_str RedisCommandKind.zrevrangebyscore = text "ZREVRANGEBYSCORE"
cmd_str RedisCommandKind.zrevrank = text "ZREVRANK"
cmd_str RedisCommandKind.zscore = text "ZSCORE"
cmd_str RedisCommandKind.zmscore = text "ZMSCORE"
cmd_str RedisCommandKind.zunion = text "ZUNION"
cmd_str RedisCommandKind.zunionstore = text "ZUNIONSTORE"
cmd_str RedisCommandKind.zpopmax = text "ZPOPMAX"
cmd_str RedisCommandKind.zpopmin = text "ZPOPMIN"
cmd_str RedisCommandKind.zmpop = text "ZMPOP"
cmd_str RedisCommandKind.script_load = text "SCRIPT"
cmd_str RedisCommandKind.script_debug = text "SCRIPT"
cmd_str RedisCommandKind.script_exists = text "SCRIPT"
cmd_str RedisCommandKind.script_flush = text "SCRIPT"
cmd_str RedisCommandKind.script_kill = text "SCRIPT"
cmd_str RedisCommandKind.scan = text "SCAN"
cmd_str RedisCommandKind.sscan = text "SSCAN"
cmd_str RedisCommandKind.hscan = text "HSCAN"
cmd_str RedisCommandKind.zscan = text "ZSCAN"
cmd_str RedisCommandKind.spublish = text "SPUBLISH"
cmd_str RedisCommandKind.ssubscribe = text "SSUBSCRIBE"
cmd_str RedisCommandKind.sunsubscribe = text "SUNSUBSCRIBE"
cmd_str RedisCommandKind.fcall = text "FCALL"
cmd_str RedisCommandKind.fcall_ro = text "FCALL_RO"
cmd_str RedisCommandKind.function_delete = text "FUNCTION"
cmd_str RedisCommandKind.function_dump = text "FUNCTION"
cmd_str RedisCommandKind.function_flush = text "FUNCTION"
cmd_str RedisCommandKind.function_kill = text "FUNCTION"
cmd_str RedisCommandKind.function_list = text "FUNCTION"
cmd_str RedisCommandKind.function_load = text "FUNCTION"
cmd_str RedisCommandKind.function_restore = text "FUNCTION"
cmd_str RedisCommandKind.function_stats = text "FUNCTION"
cmd_str (RedisCommandKind.hello _) = text "HELLO"
cmd_str RedisCommandKind.auth_all_cluster = text "AUTH"
cmd_str (RedisCommandKind.hello_all_cluster _) = text "HELLO"
cmd_str RedisCommandKind.flush_all_cluster = text "FLUSHALL"
cmd_str RedisCommandKind.script_flush_cluster = text "SCRIPT"
cmd_str RedisCommandKind.script_load_cluster = text "SCRIPT"
cmd_str RedisCommandKind.script_kill_cluster = text "SCRIPT"
cmd_str RedisCommandKind.function_load_cluster = text "FUNCTION"
cmd_str RedisCommandKind.function_flush_cluster = text "FUNCTION"
cmd_str RedisCommandKind.function_delete_cluster = text "FUNCTION"
cmd_str RedisCommandKind.function_restore_cluster = text "FUNCTION"
cmd_str (RedisCommandKind.custom kind) = kind.cmd
