-- ===== src/Vfs.antt =====
-- Names, paths and handles of the virtual file system: kernel/krust/src/vfs.
pub mod Path
pub mod Namespace
pub mod Handle
