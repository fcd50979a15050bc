-- ===== src/Service.antt =====
-- The language server service (src/service.rs and the files of src/service/).
pub mod State
pub mod Abort
pub mod World
pub mod Task
pub mod Pending
pub mod Polling
pub mod Layers
pub mod Lsp
pub mod Methods
pub mod Replies
pub mod System
pub mod Samples
mod Tests
pub mod Lifecycle
pub mod Cancellation
