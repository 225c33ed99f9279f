-- ===== src/Clipboard.antt =====
-- one-true-pairing/src/main.rs: the client of the Wayland clipboard.
pub mod State
pub mod Dispatch
pub mod Copy
pub mod MainLoop
pub mod Frames
pub mod Requests
pub mod Publish
pub mod Serve
pub mod Invariant
