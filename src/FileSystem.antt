-- ===== src/FileSystem.antt =====
-- Assignment2/fs.c: the flat file system.
pub mod State
pub mod Inodes
pub mod Pages
pub mod Bytes
pub mod Examples
