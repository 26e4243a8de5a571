-- ===== src/Finalization.antt =====
-- internal/controller/router_controller.go: the cleanup of the devices that a router leaves.
mod Defs
pub mod Wipes
pub mod Finalized
pub mod Removed
unfoldable pub use Defs.*
