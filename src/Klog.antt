-- ===== src/Klog.antt =====
-- The kernel log, src/klog.rs: a line builder, a ring of 128 lines, and the filter of the console.
pub mod State
pub mod Digits
pub mod Line
pub mod Ring
mod Tests
