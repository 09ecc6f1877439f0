-- ===== src/Query.antt =====
-- The query filter (crates/room-daemon/src/query.rs).
pub mod Filter
pub mod Satisfies
mod Tests
