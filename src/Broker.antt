-- ===== src/Broker.antt =====
-- The broker of a room (crates/room-daemon/src/broker).
pub mod Auth
pub mod Permissions
pub mod Fanout
pub mod Sequence
pub mod Private
pub mod Handshake
pub mod Admin
pub mod Room
pub mod Commands
pub mod Session
pub mod Kick
mod Tests
