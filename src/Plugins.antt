-- ===== src/Plugins.antt =====
-- The host of plugins (crates/room-daemon/src/plugin/mod.rs and broker/commands/plugin.rs).
pub mod Host
pub mod Indexed
pub mod Flag
pub mod Dispatch
pub mod Crossing
mod Tests
