-- ===== src/Data.antt =====
-- store/data/folder.go: folders of messages.
pub mod MemFolder
pub mod MemFolders
