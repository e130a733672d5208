-- ===== src/WebSocket.antt =====
-- contrib/websocket: masking, close codes, and the two halves of a connection.
pub mod Mask
pub mod Close
pub mod Conn
pub mod Write
pub mod Read
pub mod EndToEnd
mod Tests
