-- ===== src/WhaleLand/Protocol/Wayland.antt =====
-- whale-land/src/protocol/wayland.rs: every `_args` structure, under its name without the version,
-- and for each interface the list of its events and the list of its requests.
mod Core
mod Shm
mod Data
mod Shell
mod Surface
mod Seat
mod Input
mod Output
pub use Core.*
pub use Shm.*
pub use Data.*
pub use Shell.*
pub use Surface.*
pub use Seat.*
pub use Input.*
pub use Output.*
