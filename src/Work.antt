-- ===== src/Work.antt =====
-- What work a rig may take (validator/data/tiers.py) and which rig gets it
-- (validator/work/placement.py).
pub mod Tiers
pub mod Rigs
pub mod Drain
pub mod Power
pub mod Examples
pub mod Placement
