-- ===== src/Vfs.antt =====
-- The virtual file system (vfs/).
pub mod Types
pub mod Names
pub mod Memory
