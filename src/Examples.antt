-- ===== src/Examples.antt =====
-- Concrete inputs on which the theorems are applied, and runs of the code.
pub mod Codec
pub mod Journal
pub mod Trust
pub mod Bucket
pub mod Push
pub mod Cache
pub mod Merge
