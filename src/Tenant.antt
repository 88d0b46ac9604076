-- ===== src/Tenant.antt =====
-- internal/tenant: the life of a tenant.
pub mod Rows
pub mod Lifecycle
pub mod Moves
pub mod Effect
pub mod Reach
pub mod Terminal
