-- ===== src/Credvend.antt =====
-- internal/credvend: short-lived credentials for a table's files.
pub mod Cache
pub mod Service
pub mod Handler
pub mod Issued
pub mod Policy
pub mod Bucket
pub mod Separate
pub mod Keys
pub mod Scope
pub mod Replies
