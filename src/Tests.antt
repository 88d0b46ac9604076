-- ===== src/Tests.antt =====
-- Runs on concrete inputs, and the theorems applied to them.
mod FragmentRuns
mod SpliceRuns
mod InjectRuns
mod ProxyRuns
mod ClosedRuns
mod CompileRuns
mod Assoc
mod GatewayRuns
mod SnapshotRuns
mod CredvendRuns
mod TenantRuns
