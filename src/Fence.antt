-- ===== src/Fence.antt =====
-- internal/controller/router_fence.go: the fences that serialize the work on a router.
mod Registry
pub mod Threads
pub mod Totals
pub mod Invariant
pub mod Preserved
pub mod Safety
unfoldable pub use Registry.*
