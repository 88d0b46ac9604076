-- ===== src/Fragment/Sound.antt =====
-- What the parsers of sql_grammar.go return.
pub mod Ensures
pub mod Literals
pub mod Columns
pub mod Comparisons
pub mod Predicates
