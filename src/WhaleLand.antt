-- ===== src/WhaleLand.antt =====
-- whale-land: the Wayland client library.
pub mod Error
pub mod Exec
pub mod Fixed
pub mod Packet
pub mod Protocol
pub mod Socket
pub mod Connection
