-- ===== src/Fleet/Sections.antt =====
-- The sections of a merged snapshot, one function for each part of `merge_snapshots`.
pub mod Rpm
pub mod Hashed
pub mod Plain
