-- ===== src/Agents.antt =====
-- Ending the processes of agents (crates/room-daemon/src/broker/agent_cleanup.rs).
pub mod Cleanup
pub mod Terminated
mod Tests
