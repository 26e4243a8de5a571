-- ===== src/References.antt =====
-- internal/controller/router_controller.go and router_helpers.go: references to routers, and the
-- router that a reference stands for.
mod Defs
pub mod RoundTrip
pub mod Resolve
unfoldable pub use Defs.*
