-- ===== src/Dialect.antt =====
-- internal/policy/compiler/dialect: the emitters of SQL for each engine.
pub mod Ast
pub mod Trino
pub mod Spark
pub mod Print
pub mod TrinoText
pub mod SparkText
pub mod Reparse
pub mod Portable
pub mod Outcome
