-- ===== src/Graph.antt =====
-- internal/graph: text that is spliced into Cypher statements.
pub mod Literal
pub mod ReadBack
