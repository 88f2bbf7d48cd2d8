-- ===== src/Task.antt =====
-- Tasks: the part of src/task.rs that hands out pids and keeps the run queues.
pub mod State
pub mod RunQueue
pub mod Areas
pub mod Chain
pub mod Queues
pub mod Futex
pub mod FutexPi
pub mod Pids
mod Tests
