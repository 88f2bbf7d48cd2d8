-- ===== src/Buddy.antt =====
-- The page allocator of src/memory/buddy.rs.
pub mod State
pub mod Bitmap
pub mod Orders
pub mod Quarantine
pub mod FreeList
pub mod Audit
pub mod Alloc
pub mod Free
pub mod Reserve
mod Tests
