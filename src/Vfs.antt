-- ===== src/Vfs.antt =====
-- The virtual file system, src/vfs.rs and src/vfs_core/mod.rs: its paths and its vnode table.
pub mod Path
pub mod Canonical
pub mod Fixed
pub mod Split
pub mod Vnodes
pub mod Mounts
mod Tests
