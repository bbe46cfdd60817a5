-- ===== src/Files.antt =====
-- file_systems: what the programs leave behind, and how much they read.
pub mod FileSystem
pub mod Meta
pub mod ReadWrite
mod Tests
