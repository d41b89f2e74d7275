-- ===== src/Journal/History.antt =====
-- Histories of calls on a journal.
pub mod Steps
pub mod Calls
pub mod Clocks
pub mod Reach
