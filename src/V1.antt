-- ===== src/V1.antt =====
-- lib/src/protocol/v1: the binary message format, a version byte and a sequence of chunks.
pub mod Errors
pub mod Serialization
pub mod Chunks
pub mod Message
pub mod Parser
pub mod Content
pub mod Connector
mod Tests
pub mod Schemas
pub mod Association
