-- ===== src/Cluster.antt =====
-- Cluster routing: src/protocol/types.rs, src/protocol/cluster.rs and `binary_search` of src/protocol/utils.rs.
pub mod Types
pub mod Address
pub mod Search
pub mod Slots
pub mod Routing
