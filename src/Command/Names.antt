-- ===== src/Command/Names.antt =====
-- The names of the commands: the words that are sent, and the names for logs.
use fred_rs.Prelude.{Bool, true, false, not, ◌||◌, ◌≡◌, refl, Option, none, some, ◌++◌}
use fred_rs.Text.{Str, text, bytes_eq, bytes_eq_refl}
use fred_rs.Command.Kind.{RedisCommandKind}
use fred_rs.Command.DebugName.{to_str_debug}
use fred_rs.Command.WireName.{cmd_str}
use fred_rs.Command.Subcommand.{subcommand_str}
use fred_rs.Command.Policy.{is_all_cluster_nodes}

abbrev with_subcommand : Str → Option Str → Str
with_subcommand c none = c
with_subcommand c (some s) = c ++ text " " ++ s

-- The words that a command sends, joined by a space.
abbrev pub words : RedisCommandKind → Str
words k = with_subcommand (cmd_str k) (subcommand_str k)

-- The two kinds whose name for logs is spelled in another way than their words.
unfoldable pub is_misspelled : RedisCommandKind → Bool
is_misspelled RedisCommandKind.cluster_del_slots = true
is_misspelled RedisCommandKind.cluster_get_keys_in_slot = true
is_misspelled _ = false

-- Of the kind that goes to all nodes of a cluster, the kind that goes to one.
unfoldable on_one_node : RedisCommandKind → RedisCommandKind
on_one_node RedisCommandKind.flush_all_cluster = RedisCommandKind.flush_all
on_one_node RedisCommandKind.auth_all_cluster = RedisCommandKind.auth
on_one_node RedisCommandKind.script_flush_cluster = RedisCommandKind.script_flush
on_one_node RedisCommandKind.script_kill_cluster = RedisCommandKind.script_kill
on_one_node (RedisCommandKind.hello_all_cluster v) = RedisCommandKind.hello v
on_one_node RedisCommandKind.script_load_cluster = RedisCommandKind.script_load
on_one_node RedisCommandKind.function_flush_cluster = RedisCommandKind.function_flush
on_one_node RedisCommandKind.function_delete_cluster = RedisCommandKind.function_delete
on_one_node RedisCommandKind.function_restore_cluster = RedisCommandKind.function_restore
on_one_node RedisCommandKind.function_load_cluster = RedisCommandKind.function_load
on_one_node k = k

-- The name for logs of a kind is the command's word and, where the kind has one, a space and the subcommand's word, exactly
-- where the kind neither goes to all nodes of a cluster nor is one of the two that are misspelled.
pub to_str_debug-words :
    (k : RedisCommandKind)
    → bytes_eq (to_str_debug k) (words k) ≡ not (is_all_cluster_nodes k || is_misspelled k)
unfolding to_str_debug cmd_str subcommand_str is_all_cluster_nodes is_misspelled text bytes_eq
to_str_debug-words (RedisCommandKind.custom c) =
    bytes_eq_refl (to_str_debug (RedisCommandKind.custom c))
to_str_debug-words k = refl

-- A kind that goes to all nodes sends the words of the kind that goes to one node, and that one does not go to all.
words-on_one_node :
    (k : RedisCommandKind)
    → (words k ≡ words (on_one_node k)) × (is_all_cluster_nodes (on_one_node k) ≡ false)
unfolding cmd_str subcommand_str is_all_cluster_nodes on_one_node
words-on_one_node RedisCommandKind.flush_all_cluster = (refl, refl)
words-on_one_node k = (refl, refl)
