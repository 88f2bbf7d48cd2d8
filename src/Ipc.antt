-- ===== src/Ipc.antt =====
-- Ports with mailboxes and reply slots, src/ipc.rs.
pub mod State
pub mod Pages
pub mod Ports
pub mod Send
pub mod Recv
pub mod Reply
pub mod Call
pub mod Mailbox
pub mod Answer
pub mod RoundTrip
pub mod System
mod Tests
