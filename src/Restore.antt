-- ===== src/Restore.antt =====
-- internal/routeros/export.go: how a backup is split into files that RouterOS can import.
mod Statements
mod Chunks
pub mod Terminates
pub mod Limits
pub mod Console
pub mod Adds
pub mod Effects
unfoldable pub use Statements.*
unfoldable pub use Chunks.*
