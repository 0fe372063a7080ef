-- ===== src/Monitor.antt =====
-- What the validator learns of a rig between the deep checks.
pub mod Uptime
pub mod Express
pub mod Wedge
pub mod Examples
