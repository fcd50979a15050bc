-- ===== src/Client.antt =====
-- The handle through which a server calls its client (src/service/client.rs and the files of
-- src/service/client/).
pub mod Samples
mod Tests
pub mod Oneshot
pub mod Waiters
pub mod Requests
pub mod Socket
pub mod Progress
pub mod Methods
pub mod Invocations
pub mod Permissions
