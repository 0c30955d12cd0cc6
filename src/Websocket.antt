-- ===== src/Websocket.antt =====
-- The WebSocket interface: websocket/authentication.go, server.go, retry_manager.go and
-- message_handler.go. The HTTP and WebSocket library and the audio controller are parameters.
pub mod Access
pub mod Clients
pub mod Retry
pub mod Messages
