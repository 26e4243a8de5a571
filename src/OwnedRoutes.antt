-- ===== src/OwnedRoutes.antt =====
-- internal/controller/cluster_routes.go: the MikroTikRoute objects that the operator keeps for a
-- source.
mod Api
mod Candidates
mod Operations
pub mod Laws
pub mod Distinct
pub mod Spared
pub mod Wanted
pub mod Kept
pub mod Settled
pub mod Labeled
pub mod Memory
unfoldable pub use Api.*
unfoldable pub use Candidates.*
unfoldable pub use Operations.*
