-- ===== src/Taskboard.antt =====
-- The taskboard plugin (crates/room-plugin-taskboard).
pub mod Task
pub mod State
pub mod Reply
pub mod Verdict
pub mod Work
pub mod Review
pub mod Handlers
pub mod Listing
pub mod Plugin
pub mod Moves
pub mod Effects
pub mod Sweep
pub mod Ids
pub mod Steps
pub mod Sound
pub mod Orphan
pub mod Closed
pub mod Replies
pub mod Storage
mod Tests
