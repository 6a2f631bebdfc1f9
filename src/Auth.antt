-- ===== src/Auth.antt =====
-- src/auth: users, what they may access, and how they prove who they are.
pub mod ConstantTime
pub mod Fields
pub mod UserEntry
pub mod UserDb
pub mod AuthEngine
pub mod Tests
