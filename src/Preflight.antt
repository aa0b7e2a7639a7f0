-- ===== src/Preflight.antt =====
-- rpm_preflight.py: whether the packages to install are in the repos of the base image.
pub mod Direct
pub mod Repos
pub mod Steps
pub mod Evaluate
pub mod Container
pub mod Answers
pub mod Splits
pub mod Run
pub mod Log
pub mod Unchanged
pub mod Running
pub mod Staging
pub mod Cleanup
