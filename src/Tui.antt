-- ===== src/Tui.antt =====
-- The terminal interface (crates/room-cli/src/tui).
pub mod Text
pub mod Widgets
pub mod Parse
pub mod Input
pub mod Display
pub mod Announcements
mod Tests
