-- ===== src/Command/Pipelining.antt =====
-- Which commands may be written before the response to the one in front has come.
use fred_rs.Prelude.{true, false, ◌≡◌, arith}
use fred_rs.Command.Kind.{RedisCommandKind}
use fred_rs.Command.Policy.{
  can_pipeline, pipelines, is_blocking, closes_connection, is_eval, is_auth, should_flush,
  ends_transaction,
}

-- A kind that may be pipelined neither blocks the connection nor closes it, is no script or function call, and is not
-- AUTH.
pub can_pipeline-safe :
    (k : RedisCommandKind)
    → can_pipeline k ≡ true
    → (is_blocking k ≡ false)
      × (closes_connection k ≡ false)
      × (is_eval k ≡ false)
      × (is_auth k ≡ false)
unfolding can_pipeline pipelines is_blocking closes_connection is_eval is_auth
can_pipeline-safe RedisCommandKind.acl_load h = ground arith
can_pipeline-safe k h = ground arith

-- Each script or function call and each command that closes the connection is flushed as soon as it is written.
should_flush-alone :
    (k : RedisCommandKind)
    → (is_eval k ≡ true → should_flush k ≡ true)
      × (closes_connection k ≡ true → should_flush k ≡ true)
      × (ends_transaction k ≡ true → should_flush k ≡ true)
unfolding should_flush is_eval closes_connection ends_transaction
should_flush-alone RedisCommandKind.acl_load = ground arith
should_flush-alone k = ground arith
