-- ===== src/Publication.antt =====
-- The publication adapters of internal/publication/publication.go.
pub mod Types
pub mod Commands
pub mod Executables
pub mod Adapter
pub mod Gate
