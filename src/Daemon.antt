-- ===== src/Daemon.antt =====
-- The daemon with its rooms (crates/room-daemon/src/broker/daemon).
pub mod RoomId
pub mod Rooms
pub mod Lifecycle
mod Tests
