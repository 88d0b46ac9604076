-- ===== src/Iceberg.antt =====
-- internal/iceberg: the types that the clients of a catalog share.
pub mod Catalog
