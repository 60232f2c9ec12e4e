-- ===== src/Examples.antt =====
-- Concrete inputs: the theorems applied where their hypotheses hold, and tests of the definitions.
mod Routing
mod Commands
mod Replication
mod Reconnection
mod Replies
mod Values
mod Pools
mod Transactions
mod Frames
mod Writes
mod Redirections
