-- ===== src/V2.antt =====
-- lib/src/protocol/v2: the message format that is one JSON document.
pub mod Schemas
pub mod Message
pub mod Connector
