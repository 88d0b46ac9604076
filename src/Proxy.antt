-- ===== src/Proxy.antt =====
-- internal/sqlproxy: the HTTP handler in front of the injectors, and the artifact cache's eviction.
pub mod Handler
pub mod Build
pub mod Eviction
pub mod Evicted
pub mod Requeried
pub mod Served
pub mod Closed
