-- ===== src/Tests.antt =====
-- Runs of the definitions on concrete inputs, and the theorems at such inputs.
pub mod WhaleLand
pub mod Totp
pub mod Fixed
pub mod Clipboard
pub mod Connection
pub mod Protocol
pub mod Wlproto
pub mod Menu
pub mod Program
pub mod Socket
pub mod Dbus
pub mod Secrets
