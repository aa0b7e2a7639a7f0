-- ===== src/Containerfile.antt =====
-- renderers/containerfile: the lines of the Containerfile, section by section.
pub mod Helpers
pub mod DropIns
pub mod Services
pub mod Network
