-- ===== src/Agent/Access.antt =====
-- agent/access: who may open a session on the rig, and for how long.
pub mod Nonces
pub mod Keys
pub mod Grants
