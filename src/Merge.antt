-- ===== src/Merge.antt =====
-- application/backup/merge.go: the three-way merge of file trees, and their fingerprint.
pub mod Trees
pub mod Places
pub mod Install
pub mod Choices
pub mod Fingerprints
