-- ===== src/Inject.antt =====
-- internal/sqlproxy/dialect: a query meets the compiled policy of its table.
pub mod Model
pub mod Rows
pub mod Trino
pub mod Spark
pub mod Dremio
pub mod Verdict
pub mod Cached
pub mod Fresh
pub mod Order
