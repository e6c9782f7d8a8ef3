-- ===== src/Store/Tests.antt =====
-- Concrete buckets, boxes and folders of the database.
pub mod Listed
pub mod Runs
mod Stores
mod Loads
