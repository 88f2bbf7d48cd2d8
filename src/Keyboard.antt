-- ===== src/Keyboard.antt =====
-- The keyboard driver, src/keyboard.rs: its ring of characters and its interrupt handler.
pub mod State
pub mod Handler
pub mod Ring
mod Tests
