-- ===== src/Verify.antt =====
-- The checks of validator/verify that are decided from what the rig and the pool report.
pub mod Failures
pub mod Duplicates
pub mod Exclusivity
pub mod Digest
pub mod Digesting
pub mod Challenge
pub mod Judging
pub mod Examples
