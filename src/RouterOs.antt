-- ===== src/RouterOs.antt =====
-- The RouterOS API as the client in internal/routeros/client.go sees it: sentences of words go
-- out, replies come back. The device and the library go-routeros are a parameter, with the
-- documented behaviour of the commands that the client sends as laws over the tables of the
-- device's menus.
mod Defs
mod Tables
pub mod Memory
unfoldable pub use Defs.*
unfoldable pub use Tables.*
