-- ===== src/Cache.antt =====
-- cache/store.go: the local cache of payload bytes and the file of what is known about each of them.
pub mod Types
pub mod Disk
pub mod Store
pub mod Slices
pub mod Ranges
pub mod Entries
pub mod Calls
pub mod Undoing
pub mod Reading
pub mod Recovery
