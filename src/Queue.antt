-- ===== src/Queue.antt =====
-- The backlog plugin (crates/room-daemon/src/plugin/queue.rs).
pub mod Store
pub mod Handlers
pub mod Backlog
pub mod Saved
mod Tests
