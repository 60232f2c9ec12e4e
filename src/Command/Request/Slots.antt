-- ===== src/Command/Request/Slots.antt =====
-- Where a command is sent: its hash slot, and whether it is pipelined.
use fred_rs.Prelude.{ℕ, ◌≡◌, refl, Bool, true, false, not, ◌&&◌, Option, none, some, arith}
use fred_rs.Text.{Bytes}
use fred_rs.Value.{Floats}
use fred_rs.Command.Kind.{ClusterHash}
use fred_rs.Command.Policy.{
  custom_hash_slot, can_pipeline, closes_connection, is_eval, is_all_cluster_nodes,
}
use fred_rs.Command.Pipelining.{can_pipeline-safe}
use fred_rs.Command.Hash.{hash, option_map, hash-first_key}
use fred_rs.Command.Request.{
  RedisCommand, cluster_hash, scan_hash_slot, args, first_key, should_auto_pipeline,
  blocks_connection, is_none, new_asking,
}

-- A command that has no slot of its own, and the default policy, goes to the slot of its first key.
cluster_hash-first_key :
    (floats : Floats) (keyslot : Bytes → ℕ) (c : RedisCommand)
    → custom_hash_slot c.kind ≡ none
    → scan_hash_slot c ≡ none
    → c.hasher ≡ ClusterHash.first_key
    → cluster_hash floats keyslot c ≡ option_map keyslot (first_key c)
unfolding cluster_hash first_key
cluster_hash-first_key floats keyslot c custom scan policy =
    rw (custom, scan, policy) (hash-first_key floats keyslot (args c))

-- `ASKING` goes to the slot that it is made for, and is not pipelined unless that is forced.
new_asking_lem :
    (floats : Floats) (keyslot : Bytes → ℕ) (slot : ℕ) (is_pipelined : Bool)
    → (cluster_hash floats keyslot (new_asking slot) ≡ some slot)
      × (should_auto_pipeline is_pipelined (new_asking slot) false ≡ false)
unfolding cluster_hash new_asking scan_hash_slot args should_auto_pipeline custom_hash_slot hash
new_asking_lem floats keyslot slot is_pipelined = (refl, ground arith)

is_none-none : (o : Option ℕ) → is_none o ≡ true → o ≡ none
is_none-none o h = ground arith

-- The gates of `should_auto_pipeline`.
gates :
    (a b c d e f : Bool)
    → (a && b && c && not d && not e && f) ≡ true
    → (a ≡ true) × (c ≡ true) × (d ≡ false) × (e ≡ false) × (f ≡ true)
gates a b c d e f h = ground arith

-- What is pipelined without being forced: the client has the setting, and the command neither blocks nor closes the
-- connection, is no script or function call, does not go to all nodes, and belongs to no transaction.
pub should_auto_pipeline-safe :
    (is_pipelined : Bool) (c : RedisCommand)
    → should_auto_pipeline is_pipelined c false ≡ true
    → (is_pipelined ≡ true)
      × (blocks_connection c ≡ false)
      × (closes_connection c.kind ≡ false)
      × (is_eval c.kind ≡ false)
      × (is_all_cluster_nodes c.kind ≡ false)
      × (c.transaction_id ≡ none)
unfolding should_auto_pipeline
should_auto_pipeline-safe is_pipelined c h =
    let (on, kind, open_, one, no_transaction) =
      gates is_pipelined c.pipelined (can_pipeline c.kind) (blocks_connection c)
        (is_all_cluster_nodes c.kind) (is_none c.transaction_id) h in
    let safe = can_pipeline-safe c.kind kind in
    (on, open_, safe.1, safe.2, one, is_none-none c.transaction_id no_transaction)
