-- ===== src/Examples.antt =====
-- The example servers: src/examples. Their backends are programs over the client.
pub mod Script
pub mod Backend
pub mod CustomNotification
pub mod Notified
pub mod Executed
mod Tests
