-- ===== src/Store.antt =====
-- The database of the agent: store/folder.go and store/db.go over buckets of sorted keys.
pub mod Bytes
pub mod Box
pub mod Bucket
pub mod Folder
pub mod Requests
pub mod Broadcasts
pub mod Loader
pub mod Tests
