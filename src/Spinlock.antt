-- ===== src/Spinlock.antt =====
-- The spin locks of src/spinlock.rs, RawSpin and Mutex alike, taken by several processors.
pub mod State
pub mod Exclusion
mod Tests
