-- ===== src/Gateway.antt =====
-- The package backend/internal/gateway.
pub mod Telnet
pub mod Decoder
pub mod Metrics
pub mod Queue
pub mod Event
pub mod Hub
pub mod Manager
pub mod WsFrame
