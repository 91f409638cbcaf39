-- ===== src/Go.antt =====
-- The parts of Go's standard library that the program's own checks turn on: unicode/utf8,
-- encoding/hex, the case maps of strings, and path/filepath on Unix.
pub mod Utf8
pub mod Hex
pub mod Case
pub mod Filepath
pub mod Space
pub mod Parse
pub mod Int64
pub mod Order
