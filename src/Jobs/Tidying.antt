-- ===== src/Jobs/Tidying.antt =====
-- What Jobs.Teardown and Jobs.Storage take off the rig and what they keep, and that create leaves
-- no trace of the job in the set of the jobs in creation.
use microtensor_compute.Common.{◌≡◌, Bool, true, List, Option, none, some, contains}
use microtensor_compute.Common.Text.{Text, text_instance}
use microtensor_compute.Jobs.Remote.{Host, State, Resource, Entry, is_left}
use microtensor_compute.Jobs.Storage.{list_ours, mounted_volumes}

-- What was left before is still left.
abbrev Keeps : Resource → List Entry → List Entry → Type 0
Keeps x before after = is_left x before ≡ true → is_left x after ≡ true

module _ {World : Type 0} (host : Host World) where
  -- What the rig said of the mounts, when it was asked after its volumes.
  abbrev pub said_mounts : State World → Option (List Text)
  said_mounts s = (mounted_volumes host (list_ours host s).1).0

  -- Whether the volume is among those that a container mounts, or nobody knows.
  abbrev pub may_be_mounted : Text → Option (List Text) → Bool
  may_be_mounted name none = true
  may_be_mounted name (some mounted) = contains name mounted
