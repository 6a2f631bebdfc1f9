-- ===== src/Files.antt =====
-- Paths and files, as src/file/file_manager.cpp and src/common/utils.cpp see them.
pub mod Path
pub mod Names
pub mod Safe
pub mod Disk
pub mod Hashing
pub mod Memory
pub mod Tests
