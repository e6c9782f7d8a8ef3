-- ===== src/Mailbox.antt =====
-- user/mailbox.go: mailboxes over folders.
pub mod Sequence
pub mod Coding
pub mod Box
pub mod Tests
