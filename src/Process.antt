-- ===== src/Process.antt =====
-- The processes of internal/process: the buffer of their output.
pub mod Output
pub mod Paging
pub mod Transcript
pub mod Whole
