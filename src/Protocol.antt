-- ===== src/Protocol.antt =====
-- The wire protocol (crates/room-protocol/src/lib.rs).
pub mod Events
pub mod EventFilter
pub mod Mentions
pub mod Message
pub mod MessageId
pub mod Rooms
pub mod Schema
pub mod Make
mod Tests
