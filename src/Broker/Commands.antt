-- ===== src/Broker/Commands.antt =====
-- crates/room-daemon/src/broker/commands: what a client's commands do to the room.
pub mod Validate
pub mod Accepted
pub mod Reports
pub mod Status
pub mod Team
pub mod Help
pub mod Route
