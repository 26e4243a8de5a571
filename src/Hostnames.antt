-- ===== src/Hostnames.antt =====
-- internal/controller/router_controller.go: the hostnames of listeners, routes and generated records.
mod Defs
pub mod Suffixes
pub mod Meets
pub mod Candidates
unfoldable pub use Defs.*
