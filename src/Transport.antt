-- ===== src/Transport.antt =====
-- How client and server exchange messages: frames over a socket, encrypted by an engine.
pub mod Engine
pub mod Socket
pub mod Frame
pub mod Tests
