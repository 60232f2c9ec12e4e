-- ===== src/Command.antt =====
-- Commands: src/protocol/command.rs.
pub mod Kind
pub mod DebugName
pub mod WireName
pub mod Subcommand
pub mod Policy
pub mod Arguments
pub mod Names
pub mod Hash
pub mod Request
pub mod Pipelining
