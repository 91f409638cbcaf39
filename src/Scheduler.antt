-- ===== src/Scheduler.antt =====
-- The scheduler of internal/scheduler: jobs in the order of their dependencies, within the capacity of the host.
pub mod Types
pub mod Admission
pub mod Queue
pub mod Graph
pub mod Run
pub mod Choice
pub mod Totals
pub mod Figures
pub mod Accounts
pub mod Order
pub mod Reach
pub mod Ending
pub mod Least
pub mod Batch
