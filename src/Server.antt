-- ===== src/Server.antt =====
-- ConnectionHandler of src/server/server.cpp: one client's connection.
pub mod Run
pub mod State
pub mod Request
pub mod Chunks
pub mod Upload
pub mod Verify
pub mod Download
pub mod Queries
pub mod Confined
pub mod Tests
