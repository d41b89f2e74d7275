-- ===== src/Bucket.antt =====
-- bucketsync/service.go, with the values of nodeapi/dataset.go that it exchanges and the branch
-- names of internal/bucketbranch/branch.go.
pub mod Branch
pub mod Types
pub mod Node
pub mod Load
pub mod Sync
pub mod Revisions
pub mod Workspaces
pub mod Stashes
pub mod Answers
pub mod Saved
pub mod Pushes
pub mod Exchanges
