-- ===== src/Workspace/Integration.antt =====
-- The integration of a candidate into the live tree (internal/workspace/integration.go).
pub mod Plans
pub mod Apply
pub mod Recovery
pub mod Paths
pub mod Confined
pub mod Crash
pub mod Outcomes
