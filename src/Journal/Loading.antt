-- ===== src/Journal/Loading.antt =====
-- What a journal file that loads is worth: the loaded state is well formed.
pub mod Apart
pub mod Records
pub mod Chains
pub mod State
