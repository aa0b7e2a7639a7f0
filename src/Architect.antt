-- ===== src/Architect.antt =====
-- architect/: fleets are decomposed into layers of images.
pub mod Topology
pub mod Analyze
