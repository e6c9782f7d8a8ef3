-- ===== src/Email.antt =====
-- The conversion of emails: user/email.
pub mod Address
pub mod Content
pub mod Smtp
