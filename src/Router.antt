-- ===== src/Router.antt =====
-- Routing of commands to connections: src/router.
pub mod ServerMap
pub mod Replicas
pub mod Transactions
pub mod Writer
pub mod Commands
pub mod Retry
pub mod Direct
pub mod Redirection
