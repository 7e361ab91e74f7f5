-- ===== src/WsServer.antt =====
-- services/ws-server/ws_server/: live messages to the dashboards over WebSockets.
pub mod Queue
pub mod Relay
pub mod Manager
pub mod Handler
pub mod Tests
