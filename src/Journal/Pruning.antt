-- ===== src/Journal/Pruning.antt =====
-- What PruneCompleted removes: exactly the finished chains, in every journal that is well formed.
pub mod Loop
pub mod Selection
pub mod Removal
