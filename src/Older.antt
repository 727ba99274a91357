-- ===== src/Older.antt =====
-- The older version of the library, in the namespace simple_server.
pub mod Texts
pub mod System
pub mod Listening
pub mod Constants
pub mod Message
pub mod Connections
pub mod Frames
pub mod Objects
pub mod Threads
pub mod Polling
pub mod Response
pub mod Server
pub mod Service
