-- ===== src/Compile.antt =====
-- internal/policy/compiler/compiler.go: a policy becomes an artifact for one engine.
pub mod Artifact
pub mod Probe
pub mod One
pub mod Active
pub mod Kindless
