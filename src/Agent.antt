-- ===== src/Agent.antt =====
-- agent/: the parts of the rig agent that keep state.
pub mod Outbound
pub mod Updater
pub mod Access
