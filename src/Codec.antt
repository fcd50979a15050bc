-- ===== src/Codec.antt =====
-- The wire format: src/codec.rs.
pub mod Samples
mod Tests
pub mod Utf8
pub mod Decimal
pub mod Headers
pub mod Wire
pub mod Decode
pub mod Encode
pub mod Stream
pub mod Appended
pub mod Messages
