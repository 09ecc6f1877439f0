-- ===== src/Poll.antt =====
-- Reading a room from the command line (crates/room-cli/src/oneshot/poll).
pub mod Cursor
pub mod Parts
pub mod Once
pub mod Filters
pub mod Commands
pub mod Asked
pub mod Tested
pub mod Sorted
pub mod Wanted
mod Tests
