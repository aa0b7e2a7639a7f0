-- ===== src/Tests.antt =====
-- Runs of the definitions, and each theorem at a concrete input.
mod Data
mod Merge
mod Fleet
mod Layers
mod Noise
mod Versions
mod Variants
mod Compatible
mod Triage
mod Installed
mod Redact
mod Preflight
mod Nevra
mod Leaves
mod Containerfile
