-- ===== src/Journal/Canonical.antt =====
-- Normalization gives canonical records, every step keeps them canonical, and a journal of canonical
-- records loads as it was saved.
pub mod Intents
pub mod Operations
pub mod Changes
pub mod Saved
pub mod Steps
pub mod Rewound
