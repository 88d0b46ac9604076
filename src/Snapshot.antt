-- ===== src/Snapshot.antt =====
-- internal/coordination/snapshot: pins of tables to snapshots, in the graph and in a cache.
pub mod Pins
pub mod Store
pub mod Edges
pub mod Complete
pub mod Reach
pub mod Served
pub mod Written
