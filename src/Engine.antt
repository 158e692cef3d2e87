-- ===== src/Engine.antt =====
-- The transfer of a file, of crates/ferrosync-engine.
pub mod Sender
pub mod Receiver
pub mod Receivable
pub mod Transfer
pub mod Delete
pub mod Iflags
pub mod Goodbye
