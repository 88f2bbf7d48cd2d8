-- ===== src/Tty.antt =====
-- The terminal, src/tty.rs: its input queue, the line discipline, and its settings.
pub mod State
pub mod Queue
pub mod Discipline
pub mod Stuck
mod Tests
