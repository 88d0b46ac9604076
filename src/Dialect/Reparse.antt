-- ===== src/Dialect/Reparse.antt =====
-- The portable text of a predicate, as sql_grammar.go reads it.
pub mod Words
pub mod Literals
pub mod Columns
pub mod Nodes
pub mod Predicates
