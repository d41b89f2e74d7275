-- ===== src/Trust.antt =====
-- trust/store.go: the roots that the local runtime accepts, the candidates and the observed heads.
pub mod Types
pub mod Heads
pub mod Load
pub mod Store
pub mod Candidates
pub mod Accepting
pub mod Observing
