-- ===== src/Journal.antt =====
-- journal/store.go: the durable, ordered journal of local filesystem operations.
pub mod Types
pub mod Normalize
pub mod Load
pub mod Store
pub mod Invariant
pub mod Pruning
pub mod Loading
pub mod History
pub mod Canonical
pub mod Lifetime
