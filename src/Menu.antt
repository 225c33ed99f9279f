-- ===== src/Menu.antt =====
-- one-true-pairing/src/notifier/mod.rs: the menu of the tray icon.
pub mod Layout
pub mod Click
