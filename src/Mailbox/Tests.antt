-- ===== src/Mailbox/Tests.antt =====
-- Concrete packages, folders and mailboxes.
pub mod Packed
pub mod Shelf
pub mod Runs
