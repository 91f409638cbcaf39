-- ===== src/Loop.antt =====
-- The autonomous loop of internal/loop/loop.go.
pub mod Types
pub mod Services
pub mod Plans
pub mod Controller
pub mod Runs
pub mod Rule
pub mod Termination
pub mod Soundness
pub mod Journal
pub mod Evidence
pub mod Completion
