-- ===== src/Command/Subcommand.antt =====
-- `subcommand_str` of src/protocol/command.rs.
use fred_rs.Prelude.{Option, none, some}
use fred_rs.Text.{Str, text}
use fred_rs.Command.Kind.{RedisCommandKind}

-- The second word, of the commands that have one.
unfoldable pub subcommand_str : RedisCommandKind → Option Str
subcommand_str RedisCommandKind.acl_load = some (text "LOAD")
subcommand_str RedisCommandKind.acl_save = some (text "SAVE")
subcommand_str RedisCommandKind.acl_list = some (text "LIST")
subcommand_str RedisCommandKind.acl_users = some (text "USERS")
subcommand_str RedisCommandKind.acl_get_user = some (text "GETUSER")
subcommand_str RedisCommandKind.acl_set_user = some (text "SETUSER")
subcommand_str RedisCommandKind.acl_del_user = some (text "DELUSER")
subcommand_str RedisCommandKind.acl_cat = some (text "CAT")
subcommand_str RedisCommandKind.acl_gen_pass = some (text "GENPASS")
subcommand_str RedisCommandKind.acl_who_am_i = some (text "WHOAMI")
subcommand_str RedisCommandKind.acl_log = some (text "LOG")
subcommand_str RedisCommandKind.acl_help = some (text "HELP")
subcommand_str RedisCommandKind.client_id = some (text "ID")
subcommand_str RedisCommandKind.client_info = some (text "INFO")
subcommand_str RedisCommandKind.client_kill = some (text "KILL")
subcommand_str RedisCommandKind.client_list = some (text "LIST")
subcommand_str RedisCommandKind.client_get_name = some (text "GETNAME")
subcommand_str RedisCommandKind.client_get_redir = some (text "GETREDIR")
subcommand_str RedisCommandKind.client_pause = some (text "PAUSE")
subcommand_str RedisCommandKind.client_unpause = some (text "UNPAUSE")
subcommand_str RedisCommandKind.client_unblock = some (text "UNBLOCK")
subcommand_str RedisCommandKind.client_reply = some (text "REPLY")
subcommand_str RedisCommandKind.client_setname = some (text "SETNAME")
subcommand_str RedisCommandKind.cluster_add_slots = some (text "ADDSLOTS")
subcommand_str RedisCommandKind.cluster_count_failure_reports = some (text "COUNT-FAILURE-REPORTS")
subcommand_str RedisCommandKind.cluster_count_keys_in_slot = some (text "COUNTKEYSINSLOT")
subcommand_str RedisCommandKind.cluster_del_slots = some (text "DELSLOTS")
subcommand_str RedisCommandKind.cluster_fail_over = some (text "FAILOVER")
subcommand_str RedisCommandKind.cluster_forget = some (text "FORGET")
subcommand_str RedisCommandKind.cluster_flush_slots = some (text "FLUSHSLOTS")
subcommand_str RedisCommandKind.cluster_get_keys_in_slot = some (text "GETKEYSINSLOT")
subcommand_str RedisCommandKind.cluster_info = some (text "INFO")
subcommand_str RedisCommandKind.cluster_key_slot = some (text "KEYSLOT")
subcommand_str RedisCommandKind.cluster_meet = some (text "MEET")
subcommand_str RedisCommandKind.cluster_my_id = some (text "MYID")
subcommand_str RedisCommandKind.cluster_nodes = some (text "NODES")
subcommand_str RedisCommandKind.cluster_replicate = some (text "REPLICATE")
subcommand_str RedisCommandKind.cluster_reset = some (text "RESET")
subcommand_str RedisCommandKind.cluster_save_config = some (text "SAVECONFIG")
subcommand_str RedisCommandKind.cluster_set_config_epoch = some (text "SET-CONFIG-EPOCH")
subcommand_str RedisCommandKind.cluster_bump_epoch = some (text "BUMPEPOCH")
subcommand_str RedisCommandKind.cluster_set_slot = some (text "SETSLOT")
subcommand_str RedisCommandKind.cluster_replicas = some (text "REPLICAS")
subcommand_str RedisCommandKind.cluster_slots = some (text "SLOTS")
subcommand_str RedisCommandKind.config_get = some (text "GET")
subcommand_str RedisCommandKind.config_rewrite = some (text "REWRITE")
subcommand_str RedisCommandKind.config_set = some (text "SET")
subcommand_str RedisCommandKind.config_reset_stat = some (text "RESETSTAT")
subcommand_str RedisCommandKind.memory_doctor = some (text "DOCTOR")
subcommand_str RedisCommandKind.memory_help = some (text "HELP")
subcommand_str RedisCommandKind.memory_malloc_stats = some (text "MALLOC-STATS")
subcommand_str RedisCommandKind.memory_purge = some (text "PURGE")
subcommand_str RedisCommandKind.memory_stats = some (text "STATS")
subcommand_str RedisCommandKind.memory_usage = some (text "USAGE")
subcommand_str RedisCommandKind.xinfo_consumers = some (text "CONSUMERS")
subcommand_str RedisCommandKind.xinfo_groups = some (text "GROUPS")
subcommand_str RedisCommandKind.xinfo_stream = some (text "STREAM")
subcommand_str RedisCommandKind.xgroupcreate = some (text "CREATE")
subcommand_str RedisCommandKind.xgroup_create_consumer = some (text "CREATECONSUMER")
subcommand_str RedisCommandKind.xgroup_del_consumer = some (text "DELCONSUMER")
subcommand_str RedisCommandKind.xgroup_destroy = some (text "DESTROY")
subcommand_str RedisCommandKind.xgroup_set_id = some (text "SETID")
subcommand_str RedisCommandKind.script_load = some (text "LOAD")
subcommand_str RedisCommandKind.script_debug = some (text "DEBUG")
subcommand_str RedisCommandKind.script_exists = some (text "EXISTS")
subcommand_str RedisCommandKind.script_flush = some (text "FLUSH")
subcommand_str RedisCommandKind.script_kill = some (text "KILL")
subcommand_str RedisCommandKind.function_delete = some (text "DELETE")
subcommand_str RedisCommandKind.function_dump = some (text "DUMP")
subcommand_str RedisCommandKind.function_flush = some (text "FLUSH")
subcommand_str RedisCommandKind.function_kill = some (text "KILL")
subcommand_str RedisCommandKind.function_list = some (text "LIST")
subcommand_str RedisCommandKind.function_load = some (text "LOAD")
subcommand_str RedisCommandKind.function_restore = some (text "RESTORE")
subcommand_str RedisCommandKind.function_stats = some (text "STATS")
subcommand_str RedisCommandKind.script_flush_cluster = some (text "FLUSH")
subcommand_str RedisCommandKind.script_load_cluster = some (text "LOAD")
subcommand_str RedisCommandKind.script_kill_cluster = some (text "KILL")
subcommand_str RedisCommandKind.function_load_cluster = some (text "LOAD")
subcommand_str RedisCommandKind.function_flush_cluster = some (text "FLUSH")
subcommand_str RedisCommandKind.function_delete_cluster = some (text "DELETE")
subcommand_str RedisCommandKind.function_restore_cluster = some (text "RESTORE")
subcommand_str _ = none
