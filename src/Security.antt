-- ===== src/Security.antt =====
-- internal/security: the execution-security authority. Types and checks come first, then the engine
-- that grants or denies each request, and the replay cache in front of it.
pub mod Types
pub mod Values
pub mod Environment
pub mod Compile
pub mod Limits
pub mod Confinement
pub mod State
pub mod Authorize
pub mod Sessions
pub mod Operators
pub mod History
pub mod Authentication
pub mod Replay
