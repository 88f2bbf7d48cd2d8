-- ===== src/Ramfs.antt =====
-- The file system in memory.
pub mod State
pub mod Inodes
pub mod Files
pub mod Dirs
pub mod Xattrs
pub mod Content
pub mod Growing
pub mod Writing
pub mod Sizing
pub mod Reading
pub mod Entries
pub mod Linking
pub mod Making
pub mod Clearing
pub mod Dropping
pub mod Removing
pub mod Moves
pub mod Truncating
pub mod Boot
mod Tests
mod DirTests
