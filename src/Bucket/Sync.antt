-- ===== src/Bucket/Sync.antt =====
-- The methods of `Service` in bucketsync/service.go. A `cid.Cid` is its string, empty if undefined.
pub mod Locked
pub mod Methods
