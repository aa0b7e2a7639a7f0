-- ===== src/Fleet.antt =====
-- fleet/: snapshots of many hosts are merged into one.
pub mod Item
pub mod Prevalence
pub mod Merge
pub mod Dedup
pub mod Variants
pub mod Collect
pub mod Names
pub mod Sections
pub mod Strip
pub mod Snapshots
pub mod Validate
