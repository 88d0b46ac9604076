-- ===== src/Cel.antt =====
-- internal/policy/cel: what policies in CEL can ask, and how their answers count.
pub mod Value
pub mod Functions
pub mod Attribute
pub mod Evaluate
pub mod Found
pub mod Tagged
