-- ===== src/Command/DebugName.antt =====
-- `to_str_debug` of src/protocol/command.rs.
use fred_rs.Text.{Str, text}
use fred_rs.Command.Kind.{RedisCommandKind}

-- The name in logs and errors.
unfoldable pub to_str_debug : RedisCommandKind → Str
to_str_debug RedisCommandKind.acl_load = text "ACL LOAD"
to_str_debug RedisCommandKind.acl_save = text "ACL SAVE"
to_str_debug RedisCommandKind.acl_list = text "ACL LIST"
to_str_debug RedisCommandKind.acl_users = text "ACL USERS"
to_str_debug RedisCommandKind.acl_get_user = text "ACL GETUSER"
to_str_debug RedisCommandKind.acl_set_user = text "ACL SETUSER"
to_str_debug RedisCommandKind.acl_del_user = text "ACL DELUSER"
to_str_debug RedisCommandKind.acl_cat = text "ACL CAT"
to_str_debug RedisCommandKind.acl_gen_pass = text "ACL GENPASS"
to_str_debug RedisCommandKind.acl_who_am_i = text "ACL WHOAMI"
to_str_debug RedisCommandKind.acl_log = text "ACL LOG"
to_str_debug RedisCommandKind.acl_help = text "ACL HELP"
to_str_debug RedisCommandKind.append = text "APPEND"
to_str_debug RedisCommandKind.auth = text "AUTH"
to_str_debug RedisCommandKind.asking = text "ASKING"
to_str_debug RedisCommandKind.bgre_write_aof = text "BGREWRITEAOF"
to_str_debug RedisCommandKind.bg_save = text "BGSAVE"
to_str_debug RedisCommandKind.bit_count = text "BITCOUNT"
to_str_debug RedisCommandKind.bit_field = text "BITFIELD"
to_str_debug RedisCommandKind.bit_op = text "BITOP"
to_str_debug RedisCommandKind.bit_pos = text "BITPOS"
to_str_debug RedisCommandKind.bl_pop = text "BLPOP"
to_str_debug RedisCommandKind.bl_move = text "BLMOVE"
to_str_debug RedisCommandKind.br_pop = text "BRPOP"
to_str_debug RedisCommandKind.br_pop_l_push = text "BRPOPLPUSH"
to_str_debug RedisCommandKind.bz_pop_min = text "BZPOPMIN"
to_str_debug RedisCommandKind.bz_pop_max = text "BZPOPMAX"
to_str_debug RedisCommandKind.blm_pop = text "BLMPOP"
to_str_debug RedisCommandKind.bzm_pop = text "BZMPOP"
to_str_debug RedisCommandKind.client_id = text "CLIENT ID"
to_str_debug RedisCommandKind.client_info = text "CLIENT INFO"
to_str_debug RedisCommandKind.client_kill = text "CLIENT KILL"
to_str_debug RedisCommandKind.client_list = text "CLIENT LIST"
to_str_debug RedisCommandKind.client_get_name = text "CLIENT GETNAME"
to_str_debug RedisCommandKind.client_get_redir = text "CLIENT GETREDIR"
to_str_debug RedisCommandKind.client_pause = text "CLIENT PAUSE"
to_str_debug RedisCommandKind.client_unpause = text "CLIENT UNPAUSE"
to_str_debug RedisCommandKind.client_unblock = text "CLIENT UNBLOCK"
to_str_debug RedisCommandKind.client_reply = text "CLIENT REPLY"
to_str_debug RedisCommandKind.client_setname = text "CLIENT SETNAME"
to_str_debug RedisCommandKind.cluster_add_slots = text "CLUSTER ADDSLOTS"
to_str_debug RedisCommandKind.cluster_count_failure_reports = text "CLUSTER COUNT-FAILURE-REPORTS"
to_str_debug RedisCommandKind.cluster_count_keys_in_slot = text "CLUSTER COUNTKEYSINSLOT"
to_str_debug RedisCommandKind.cluster_del_slots = text "CLUSTER DEL SLOTS"
to_str_debug RedisCommandKind.cluster_fail_over = text "CLUSTER FAILOVER"
to_str_debug RedisCommandKind.cluster_forget = text "CLUSTER FORGET"
to_str_debug RedisCommandKind.cluster_flush_slots = text "CLUSTER FLUSHSLOTS"
to_str_debug RedisCommandKind.cluster_get_keys_in_slot = text "CLUSTER GETKEYSINSLOTS"
to_str_debug RedisCommandKind.cluster_info = text "CLUSTER INFO"
to_str_debug RedisCommandKind.cluster_key_slot = text "CLUSTER KEYSLOT"
to_str_debug RedisCommandKind.cluster_meet = text "CLUSTER MEET"
to_str_debug RedisCommandKind.cluster_my_id = text "CLUSTER MYID"
to_str_debug RedisCommandKind.cluster_nodes = text "CLUSTER NODES"
to_str_debug RedisCommandKind.cluster_replicate = text "CLUSTER REPLICATE"
to_str_debug RedisCommandKind.cluster_reset = text "CLUSTER RESET"
to_str_debug RedisCommandKind.cluster_save_config = text "CLUSTER SAVECONFIG"
to_str_debug RedisCommandKind.cluster_set_config_epoch = text "CLUSTER SET-CONFIG-EPOCH"
to_str_debug RedisCommandKind.cluster_bump_epoch = text "CLUSTER BUMPEPOCH"
to_str_debug RedisCommandKind.cluster_set_slot = text "CLUSTER SETSLOT"
to_str_debug RedisCommandKind.cluster_replicas = text "CLUSTER REPLICAS"
to_str_debug RedisCommandKind.cluster_slots = text "CLUSTER SLOTS"
to_str_debug RedisCommandKind.config_get = text "CONFIG GET"
to_str_debug RedisCommandKind.config_rewrite = text "CONFIG REWRITE"
to_str_debug RedisCommandKind.config_set = text "CONFIG SET"
to_str_debug RedisCommandKind.config_reset_stat = text "CONFIG RESETSTAT"
to_str_debug RedisCommandKind.copy = text "COPY"
to_str_debug RedisCommandKind.db_size = text "DBSIZE"
to_str_debug RedisCommandKind.decr = text "DECR"
to_str_debug RedisCommandKind.decr_by = text "DECRBY"
to_str_debug RedisCommandKind.del = text "DEL"
to_str_debug RedisCommandKind.discard = text "DISCARD"
to_str_debug RedisCommandKind.dump = text "DUMP"
to_str_debug RedisCommandKind.echo = text "ECHO"
to_str_debug RedisCommandKind.eval = text "EVAL"
to_str_debug RedisCommandKind.eval_sha = text "EVALSHA"
to_str_debug RedisCommandKind.exec = text "EXEC"
to_str_debug RedisCommandKind.exists = text "EXISTS"
to_str_debug RedisCommandKind.expire = text "EXPIRE"
to_str_debug RedisCommandKind.expire_at = text "EXPIREAT"
to_str_debug RedisCommandKind.failover = text "FAILOVER"
to_str_debug RedisCommandKind.flush_all = text "FLUSHALL"
to_str_debug RedisCommandKind.flush_db = text "FLUSHDB"
to_str_debug RedisCommandKind.geo_add = text "GEOADD"
to_str_debug RedisCommandKind.geo_hash = text "GEOHASH"
to_str_debug RedisCommandKind.geo_pos = text "GEOPOS"
to_str_debug RedisCommandKind.geo_dist = text "GEODIST"
to_str_debug RedisCommandKind.geo_radius = text "GEORADIUS"
to_str_debug RedisCommandKind.geo_radius_by_member = text "GEORADIUSBYMEMBER"
to_str_debug RedisCommandKind.geo_search = text "GEOSEARCH"
to_str_debug RedisCommandKind.geo_search_store = text "GEOSEARCHSTORE"
to_str_debug RedisCommandKind.get = text "GET"
to_str_debug RedisCommandKind.get_bit = text "GETBIT"
to_str_debug RedisCommandKind.get_del = text "GETDEL"
to_str_debug RedisCommandKind.get_range = text "GETRANGE"
to_str_debug RedisCommandKind.get_set = text "GETSET"
to_str_debug RedisCommandKind.h_del = text "HDEL"
to_str_debug RedisCommandKind.h_exists = text "HEXISTS"
to_str_debug RedisCommandKind.h_get = text "HGET"
to_str_debug RedisCommandKind.h_get_all = text "HGETALL"
to_str_debug RedisCommandKind.h_incr_by = text "HINCRBY"
to_str_debug RedisCommandKind.h_incr_by_float = text "HINCRBYFLOAT"
to_str_debug RedisCommandKind.h_keys = text "HKEYS"
to_str_debug RedisCommandKind.h_len = text "HLEN"
to_str_debug RedisCommandKind.hm_get = text "HMGET"
to_str_debug RedisCommandKind.hm_set = text "HMSET"
to_str_debug RedisCommandKind.h_set = text "HSET"
to_str_debug RedisCommandKind.h_set_nx = text "HSETNX"
to_str_debug RedisCommandKind.h_str_len = text "HSTRLEN"
to_str_debug RedisCommandKind.h_vals = text "HVALS"
to_str_debug RedisCommandKind.h_rand_field = text "HRANDFIELD"
to_str_debug RedisCommandKind.incr = text "INCR"
to_str_debug RedisCommandKind.incr_by = text "INCRBY"
to_str_debug RedisCommandKind.incr_by_float = text "INCRBYFLOAT"
to_str_debug RedisCommandKind.info = text "INFO"
to_str_debug RedisCommandKind.keys = text "KEYS"
to_str_debug RedisCommandKind.last_save = text "LASTSAVE"
to_str_debug RedisCommandKind.l_index = text "LINDEX"
to_str_debug RedisCommandKind.l_insert = text "LINSERT"
to_str_debug RedisCommandKind.l_len = text "LLEN"
to_str_debug RedisCommandKind.l_move = text "LMOVE"
to_str_debug RedisCommandKind.l_pop = text "LPOP"
to_str_debug RedisCommandKind.l_pos = text "LPOS"
to_str_debug RedisCommandKind.l_push = text "LPUSH"
to_str_debug RedisCommandKind.l_push_x = text "LPUSHX"
to_str_debug RedisCommandKind.l_range = text "LRANGE"
to_str_debug RedisCommandKind.lm_pop = text "LMPOP"
to_str_debug RedisCommandKind.l_rem = text "LREM"
to_str_debug RedisCommandKind.l_set = text "LSET"
to_str_debug RedisCommandKind.l_trim = text "LTRIM"
to_str_debug RedisCommandKind.lcs = text "LCS"
to_str_debug RedisCommandKind.memory_doctor = text "MEMORY DOCTOR"
to_str_debug RedisCommandKind.memory_help = text "MEMORY HELP"
to_str_debug RedisCommandKind.memory_malloc_stats = text "MEMORY MALLOC-STATS"
to_str_debug RedisCommandKind.memory_purge = text "MEMORY PURGE"
to_str_debug RedisCommandKind.memory_stats = text "MEMORY STATS"
to_str_debug RedisCommandKind.memory_usage = text "MEMORY USAGE"
to_str_debug RedisCommandKind.mget = text "MGET"
to_str_debug RedisCommandKind.migrate = text "MIGRATE"
to_str_debug RedisCommandKind.monitor = text "MONITOR"
to_str_debug RedisCommandKind.move = text "MOVE"
to_str_debug RedisCommandKind.mset = text "MSET"
to_str_debug RedisCommandKind.msetnx = text "MSETNX"
to_str_debug RedisCommandKind.multi = text "MULTI"
to_str_debug RedisCommandKind.object = text "OBJECT"
to_str_debug RedisCommandKind.persist = text "PERSIST"
to_str_debug RedisCommandKind.pexpire = text "PEXPIRE"
to_str_debug RedisCommandKind.pexpireat = text "PEXPIREAT"
to_str_debug RedisCommandKind.pfadd = text "PFADD"
to_str_debug RedisCommandKind.pfcount = text "PFCOUNT"
to_str_debug RedisCommandKind.pfmerge = text "PFMERGE"
to_str_debug RedisCommandKind.ping = text "PING"
to_str_debug RedisCommandKind.psetex = text "PSETEX"
to_str_debug RedisCommandKind.psubscribe = text "PSUBSCRIBE"
to_str_debug RedisCommandKind.pubsub = text "PUBSUB"
to_str_debug RedisCommandKind.pttl = text "PTTL"
to_str_debug RedisCommandKind.publish = text "PUBLISH"
to_str_debug RedisCommandKind.punsubscribe = text "PUNSUBSCRIBE"
to_str_debug RedisCommandKind.quit = text "QUIT"
to_str_debug RedisCommandKind.randomkey = text "RANDOMKEY"
to_str_debug RedisCommandKind.readonly = text "READONLY"
to_str_debug RedisCommandKind.readwrite = text "READWRITE"
to_str_debug RedisCommandKind.rename = text "RENAME"
to_str_debug RedisCommandKind.renamenx = text "RENAMENX"
to_str_debug RedisCommandKind.restore = text "RESTORE"
to_str_debug RedisCommandKind.role = text "ROLE"
to_str_debug RedisCommandKind.rpop = text "RPOP"
to_str_debug RedisCommandKind.rpoplpush = text "RPOPLPUSH"
to_str_debug RedisCommandKind.rpush = text "RPUSH"
to_str_debug RedisCommandKind.rpushx = text "RPUSHX"
to_str_debug RedisCommandKind.sadd = text "SADD"
to_str_debug RedisCommandKind.save = text "SAVE"
to_str_debug RedisCommandKind.scard = text "SCARD"
to_str_debug RedisCommandKind.sdiff = text "SDIFF"
to_str_debug RedisCommandKind.sdiffstore = text "SDIFFSTORE"
to_str_debug RedisCommandKind.select = text "SELECT"
to_str_debug RedisCommandKind.sentinel = text "SENTINEL"
to_str_debug RedisCommandKind.set = text "SET"
to_str_debug RedisCommandKind.setbit = text "SETBIT"
to_str_debug RedisCommandKind.setex = text "SETEX"
to_str_debug RedisCommandKind.setnx = text "SETNX"
to_str_debug RedisCommandKind.setrange = text "SETRANGE"
to_str_debug RedisCommandKind.shutdown = text "SHUTDOWN"
to_str_debug RedisCommandKind.sinter = text "SINTER"
to_str_debug RedisCommandKind.sinterstore = text "SINTERSTORE"
to_str_debug RedisCommandKind.sismember = text "SISMEMBER"
to_str_debug RedisCommandKind.replicaof = text "REPLICAOF"
to_str_debug RedisCommandKind.slowlog = text "SLOWLOG"
to_str_debug RedisCommandKind.smembers = text "SMEMBERS"
to_str_debug RedisCommandKind.smismember = text "SMISMEMBER"
to_str_debug RedisCommandKind.smove = text "SMOVE"
to_str_debug RedisCommandKind.sort = text "SORT"
to_str_debug RedisCommandKind.spop = text "SPOP"
to_str_debug RedisCommandKind.srandmember = text "SRANDMEMBER"
to_str_debug RedisCommandKind.srem = text "SREM"
to_str_debug RedisCommandKind.strlen = text "STRLEN"
to_str_debug RedisCommandKind.subscribe = text "SUBSCRIBE"
to_str_debug RedisCommandKind.sunion = text "SUNION"
to_str_debug RedisCommandKind.sunionstore = text "SUNIONSTORE"
to_str_debug RedisCommandKind.swapdb = text "SWAPDB"
to_str_debug RedisCommandKind.sync = text "SYNC"
to_str_debug RedisCommandKind.time = text "TIME"
to_str_debug RedisCommandKind.touch = text "TOUCH"
to_str_debug RedisCommandKind.ttl = text "TTL"
to_str_debug RedisCommandKind.type = text "TYPE"
to_str_debug RedisCommandKind.unsubscribe = text "UNSUBSCRIBE"
to_str_debug RedisCommandKind.unlink = text "UNLINK"
to_str_debug RedisCommandKind.unwatch = text "UNWATCH"
to_str_debug RedisCommandKind.wait = text "WAIT"
to_str_debug RedisCommandKind.watch = text "WATCH"
to_str_debug RedisCommandKind.xinfo_consumers = text "XINFO CONSUMERS"
to_str_debug RedisCommandKind.xinfo_groups = text "XINFO GROUPS"
to_str_debug RedisCommandKind.xinfo_stream = text "XINFO STREAM"
to_str_debug RedisCommandKind.xadd = text "XADD"
to_str_debug RedisCommandKind.xtrim = text "XTRIM"
to_str_debug RedisCommandKind.xdel = text "XDEL"
to_str_debug RedisCommandKind.xrange = text "XRANGE"
to_str_debug RedisCommandKind.xrevrange = text "XREVRANGE"
to_str_debug RedisCommandKind.xlen = text "XLEN"
to_str_debug RedisCommandKind.xread = text "XREAD"
to_str_debug RedisCommandKind.xgroupcreate = text "XGROUP CREATE"
to_str_debug RedisCommandKind.xgroup_create_consumer = text "XGROUP CREATECONSUMER"
to_str_debug RedisCommandKind.xgroup_del_consumer = text "XGROUP DELCONSUMER"
to_str_debug RedisCommandKind.xgroup_destroy = text "XGROUP DESTROY"
to_str_debug RedisCommandKind.xgroup_set_id = text "XGROUP SETID"
to_str_debug RedisCommandKind.xreadgroup = text "XREADGROUP"
to_str_debug RedisCommandKind.xack = text "XACK"
to_str_debug RedisCommandKind.xclaim = text "XCLAIM"
to_str_debug RedisCommandKind.xautoclaim = text "XAUTOCLAIM"
to_str_debug RedisCommandKind.xpending = text "XPENDING"
to_str_debug RedisCommandKind.zadd = text "ZADD"
to_str_debug RedisCommandKind.zcard = text "ZCARD"
to_str_debug RedisCommandKind.zcount = text "ZCOUNT"
to_str_debug RedisCommandKind.zdiff = text "ZDIFF"
to_str_debug RedisCommandKind.zdiffstore = text "ZDIFFSTORE"
to_str_debug RedisCommandKind.zincrby = text "ZINCRBY"
to_str_debug RedisCommandKind.zinter = text "ZINTER"
to_str_debug RedisCommandKind.zinterstore = text "ZINTERSTORE"
to_str_debug RedisCommandKind.zlexcount = text "ZLEXCOUNT"
to_str_debug RedisCommandKind.zrandmember = text "ZRANDMEMBER"
to_str_debug RedisCommandKind.zrange = text "ZRANGE"
to_str_debug RedisCommandKind.zrangestore = text "ZRANGESTORE"
to_str_debug RedisCommandKind.zrangebylex = text "ZRANGEBYLEX"
to_str_debug RedisCommandKind.zrangebyscore = text "ZRANGEBYSCORE"
to_str_debug RedisCommandKind.zrank = text "ZRANK"
to_str_debug RedisCommandKind.zrem = text "ZREM"
to_str_debug RedisCommandKind.zremrangebylex = text "ZREMRANGEBYLEX"
to_str_debug RedisCommandKind.zremrangebyrank = text "ZREMRANGEBYRANK"
to_str_debug RedisCommandKind.zremrangebyscore = text "ZREMRANGEBYSCORE"
to_str_debug RedisCommandKind.zrevrange = text "ZREVRANGE"
to_str_debug RedisCommandKind.zrevrangebylex = text "ZREVRANGEBYLEX"
to_str_debug RedisCommandKind.zrevrangebyscore = text "ZREVRANGEBYSCORE"
to_str_debug RedisCommandKind.zrevrank = text "ZREVRANK"
to_str_debug RedisCommandKind.zscore = text "ZSCORE"
to_str_debug RedisCommandKind.zmscore = text "ZMSCORE"
to_str_debug RedisCommandKind.zunion = text "ZUNION"
to_str_debug RedisCommandKind.zunionstore = text "ZUNIONSTORE"
to_str_debug RedisCommandKind.zpopmax = text "ZPOPMAX"
to_str_debug RedisCommandKind.zpopmin = text "ZPOPMIN"
to_str_debug RedisCommandKind.zmpop = text "ZMPOP"
to_str_debug RedisCommandKind.script_load = text "SCRIPT LOAD"
to_str_debug RedisCommandKind.script_debug = text "SCRIPT DEBUG"
to_str_debug RedisCommandKind.script_exists = text "SCRIPT EXISTS"
to_str_debug RedisCommandKind.script_flush = text "SCRIPT FLUSH"
to_str_debug RedisCommandKind.script_kill = text "SCRIPT KILL"
to_str_debug RedisCommandKind.scan = text "SCAN"
to_str_debug RedisCommandKind.sscan = text "SSCAN"
to_str_debug RedisCommandKind.hscan = text "HSCAN"
to_str_debug RedisCommandKind.zscan = text "ZSCAN"
to_str_debug RedisCommandKind.spublish = text "SPUBLISH"
to_str_debug RedisCommandKind.ssubscribe = text "SSUBSCRIBE"
to_str_debug RedisCommandKind.sunsubscribe = text "SUNSUBSCRIBE"
to_str_debug RedisCommandKind.fcall = text "FCALL"
to_str_debug RedisCommandKind.fcall_ro = text "FCALL_RO"
to_str_debug RedisCommandKind.function_delete = text "FUNCTION DELETE"
to_str_debug RedisCommandKind.function_dump = text "FUNCTION DUMP"
to_str_debug RedisCommandKind.function_flush = text "FUNCTION FLUSH"
to_str_debug RedisCommandKind.function_kill = text "FUNCTION KILL"
to_str_debug RedisCommandKind.function_list = text "FUNCTION LIST"
to_str_debug RedisCommandKind.function_load = text "FUNCTION LOAD"
to_str_debug RedisCommandKind.function_restore = text "FUNCTION RESTORE"
to_str_debug RedisCommandKind.function_stats = text "FUNCTION STATS"
to_str_debug (RedisCommandKind.hello _) = text "HELLO"
to_str_debug RedisCommandKind.auth_all_cluster = text "AUTH ALL CLUSTER"
to_str_debug (RedisCommandKind.hello_all_cluster _) = text "HELLO ALL CLUSTER"
to_str_debug RedisCommandKind.flush_all_cluster = text "FLUSHALL CLUSTER"
to_str_debug RedisCommandKind.script_flush_cluster = text "SCRIPT FLUSH CLUSTER"
to_str_debug RedisCommandKind.script_load_cluster = text "SCRIPT LOAD CLUSTER"
to_str_debug RedisCommandKind.script_kill_cluster = text "SCRIPT Kill CLUSTER"
to_str_debug RedisCommandKind.function_load_cluster = text "FUNCTION LOAD CLUSTER"
to_str_debug RedisCommandKind.function_flush_cluster = text "FUNCTION FLUSH CLUSTER"
to_str_debug RedisCommandKind.function_delete_cluster = text "FUNCTION DELETE CLUSTER"
to_str_debug RedisCommandKind.function_restore_cluster = text "FUNCTION RESTORE CLUSTER"
to_str_debug (RedisCommandKind.custom kind) = kind.cmd
