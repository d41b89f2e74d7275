-- ===== src/Journal/Store.antt =====
-- The methods of `Store` in journal/store.go on a loaded state. `now` is `time.Now().UTC()`.
pub mod Locked
pub mod Batches
pub mod Prune
pub mod Methods
