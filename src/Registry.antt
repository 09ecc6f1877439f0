-- ===== src/Registry.antt =====
-- The daemon's user registry (crates/room-daemon/src/registry.rs).
pub mod State
pub mod Users
pub mod Tokens
pub mod Teams
pub mod Operations
pub mod Invariant
pub mod Consistent
pub mod Membership
pub mod Laws
mod Tests
