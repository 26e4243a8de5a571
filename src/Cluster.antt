-- ===== src/Cluster.antt =====
-- internal/controller/cluster_routes.go: the routes to the cluster's services.
mod Gateways
mod Hops
pub mod Unique
pub mod Adds
pub mod Covers
unfoldable pub use Gateways.*
unfoldable pub use Hops.*
