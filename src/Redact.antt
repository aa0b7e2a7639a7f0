-- ===== src/Redact.antt =====
-- redact.py: the removal of secrets from a snapshot.
pub mod Patterns
pub mod Registry
pub mod Scan
pub mod Texts
pub mod Shadow
pub mod Sections
pub mod Snapshot
pub mod Runs
