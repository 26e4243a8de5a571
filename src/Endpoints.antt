-- ===== src/Endpoints.antt =====
-- internal/controller/router_helpers.go and router_controller.go: which RouterOS devices a
-- MikroTikRouter stands for, and which router owns a device.
mod Defs
mod Owners
pub mod Order
pub mod Ownership
pub mod Active
pub mod Targets
pub mod History
unfoldable pub use Defs.*
unfoldable pub use Owners.*
