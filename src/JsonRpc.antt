-- ===== src/JsonRpc.antt =====
-- The JSON-RPC types (src/jsonrpc.rs and the files of src/jsonrpc/).
mod Tests
pub mod Documents
pub mod RequestId
pub mod Json
pub mod Error
pub mod Request
pub mod Response
pub mod Message
pub mod Document
pub mod Members
pub mod Serialize
pub mod Deserialize
pub mod Router
