-- ===== src/Workspace.antt =====
-- The workspaces of internal/workspace: isolated generations, their leases and their integration.
pub mod Types
pub mod Checks
pub mod Generations
pub mod Leases
pub mod Mutations
pub mod Change
pub mod Fences
pub mod Leads
pub mod Refines
pub mod Rewrites
pub mod Counts
pub mod History
pub mod Granted
pub mod Fencing
pub mod Retired
pub mod Integration
pub mod Fenced
