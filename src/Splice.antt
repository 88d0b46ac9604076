-- ===== src/Splice.antt =====
-- internal/sqlproxy/dialect/splice.go: the splicer of policy artifacts into queries.
pub mod Trim
pub mod Scan
pub mod Select
pub mod Mask
pub mod Rewrite
pub mod Boundaries
pub mod Cuts
pub mod Steps
pub mod FirstCut
pub mod Masked
pub mod Pinned
