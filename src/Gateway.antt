-- ===== src/Gateway.antt =====
-- internal/gateway/iceberg: commits of tables, let through by policies.
pub mod Coordinator
pub mod Project
pub mod Commit
pub mod Forwarded
pub mod Through
pub mod Unseen
pub mod MultiTable
pub mod RejectAll
