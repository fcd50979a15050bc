-- ===== src/Transport.antt =====
-- The server loop: src/transport.rs.
pub mod Server
pub mod Failure
pub mod Connection
pub mod Slots
pub mod Running
pub mod Invariants
pub mod Trace
pub mod Runs
pub mod Answers
pub mod Completion
pub mod Stopped
pub mod Finished
pub mod Routed
pub mod Refused
pub mod Built
pub mod Sequential
pub mod Once
pub mod Merged
pub mod Ordered
pub mod Unread
pub mod Output
mod Tests
