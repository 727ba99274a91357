-- ===== src/Http.antt =====
-- The HTTP side of the server: src/http_handler.cpp and includes/http_handler.h.
pub mod Codes
pub mod Response
pub mod Headers
pub mod Request
pub mod Route
pub mod Server
