-- ===== src/Client.antt =====
-- internal/routeros/client.go: the RouterOS client.
mod Entries
mod Operations
pub mod Spares
pub mod Delete
pub mod Add
pub mod Ensure
pub mod Dns
pub mod Route
pub mod Managed
pub mod Routes
pub mod RouteSet
pub mod Nat
pub mod NatPair
pub mod Order
pub mod Filter
pub mod Firewall
pub mod Placement
pub mod Identity
unfoldable pub use Entries.*
unfoldable pub use Operations.*
