-- ===== src/Jobs.antt =====
-- validator/work/containers.py with validator/storage/volumes.py and validator/session/runner.py:
-- how the validator starts a job's container on a rig and takes it down again.
pub mod Names
pub mod Volumes
pub mod Spec
pub mod Inflight
pub mod Remote
pub mod Ports
pub mod Devices
pub mod Arguments
pub mod Storage
pub mod Launch
pub mod Frames
pub mod Create
pub mod Effects
pub mod Waiting
pub mod Stages
pub mod Accounting
pub mod Rollback
pub mod Teardown
pub mod Reserving
pub mod Tidying
pub mod Clearing
pub mod Sweeping
pub mod Retrying
pub mod Examples
