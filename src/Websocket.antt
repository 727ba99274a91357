-- ===== src/Websocket.antt =====
-- The WebSocket side of the server: src/websocket_handler.cpp and includes/websocket_handler.h.
pub mod Base64
pub mod Frame
pub mod Manager
pub mod Wrapper
pub mod Hex
