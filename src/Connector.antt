-- ===== src/Connector.antt =====
-- lib/src/connector: the parts of the connection, without the WebSocket library under it.
pub mod Durations
pub mod Timings
pub mod Connection
pub mod Monitor
pub mod ClientMetadata
pub mod Base
mod Tests
