-- ===== src/Wlproto.antt =====
-- wlproto: the compiler from Wayland protocol XML to Rust code.
pub mod Model
pub mod Output
pub mod Document
pub mod Numerals
pub mod Generate
pub mod Reading
pub mod Tokens
