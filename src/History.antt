-- ===== src/History.antt =====
-- The history file of a room (crates/room-daemon/src/history.rs).
pub mod File
pub mod Resume
pub mod Reload
mod Tests
