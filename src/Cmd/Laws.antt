-- ===== src/Cmd/Laws.antt =====
-- How commands are read from an email and built from a request.
pub mod Reading
pub mod NoPanic
pub mod Requests
mod Tests
