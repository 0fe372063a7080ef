-- ===== src/Jobs/Frames.antt =====
-- The local variables of create of validator/work/containers.py as a Frame, its results, and how
-- the stages of its body follow each other.
use microtensor_compute.Common.{
  ◌||◌, not, Bool, true, false, List, [], ◌∷◌, Option, none, some, if◌then◌else◌, is_empty,
  from_option, erase,
}
use microtensor_compute.Common.Text.{Text, text_instance}
use microtensor_compute.Jobs.Inflight.{start, finish, is_cancelled}
use microtensor_compute.Jobs.Spec.{JobSpec, PortMapping, SpecProblem, container_name}
use microtensor_compute.Jobs.Ports.{PortProblem}
use microtensor_compute.Jobs.Devices.{DeviceProblem}
use microtensor_compute.Jobs.Remote.{State, map_option}
use microtensor_compute.Jobs.Storage.{VolumeReason}
use microtensor_compute.Jobs.Launch.{LaunchReason, Diagnostics}

pub data Step : Type 0 where
  validate reserve_ports pulling cleanup volumes devices power : Step
  running encrypted_volumes to_record done cancelled destroying : Step
  launching : Step

pub data CreateReason : Type 0 where
  spec_refused : SpecProblem → CreateReason
  no_master_secret : CreateReason
  ports_refused : PortProblem → CreateReason
  pull_said : Text → CreateReason
  volume_said : Text → VolumeReason → CreateReason
  devices_said : DeviceProblem → CreateReason
  no_records_file : CreateReason
  caps_failed : CreateReason
  launch_said : LaunchReason → CreateReason
  write_failed : CreateReason
  cancelled_meanwhile : CreateReason
  not_destroyed : CreateReason
  nothing_said : CreateReason

-- The time that it took is left out.
pub record CreateResult : Type 0 where
  pub ok : Bool
  pub step : Step
  pub reason : CreateReason
  pub container : Text
  pub ports : List PortMapping
  pub diagnosed : Option Diagnostics

pub record Frame : Type 0 where
  pub spec : JobSpec
  pub created_volumes : List Text
  pub capped : Bool
  pub launched : Bool

abbrev pub stop : Step → CreateReason → CreateResult
stop step reason = record {
  ok = false;
  step = step;
  reason = reason;
  container = [];
  ports = [];
  diagnosed = none;
}

abbrev pub launched_name : Frame → Text
launched_name f = if f.launched then container_name f.spec else []

abbrev pub stop_launched : Step → CreateReason → Frame → CreateResult
stop_launched step reason f = record (stop step reason) { container = launched_name f }

abbrev pub stop_diagnosed : Step → CreateReason → Frame → Diagnostics → CreateResult
stop_diagnosed step reason f found = record (stop step reason) {
  container = container_name f.spec;
  diagnosed = some found;
}

abbrev pub stop_if {ℓ} : {A : Type ℓ} → Option A → (A → CreateResult) → Option CreateResult
stop_if none result = none
stop_if (some reason) result = some (result reason)

abbrev pub unless_ok : Bool → CreateResult → Option CreateResult
unless_ok true result = none
unless_ok false result = some result

-- A stage of the body, and what is left of the body after it.
abbrev pub Point : Type 0 → Type 0
Point World = Frame × State World

abbrev pub Stage : Type 0 → Type 0
Stage World = Point World → Option CreateResult × Point World

abbrev pub Body : Type 0 → Type 0
Body World = Point World → CreateResult × Point World

abbrev pub go_on :
    {World : Type 0} → Option CreateResult × Point World → Body World → CreateResult × Point World
go_on (some result, p) rest = (result, p)
go_on (none, p) rest = rest p

infixr 20 ◌then◌
abbrev pub ◌then◌ : {World : Type 0} → Stage World → Body World → Body World
(stage then rest) p = go_on (stage p) rest

abbrev pub is_marked : {World : Type 0} → Text → State World → Bool
is_marked job_id s = from_option false (map_option (is_cancelled job_id) s.inflight)

abbrev pub check_stage : {World : Type 0} → Stage World
check_stage (f, s) = (
  (if is_marked f.spec.job_id s
      then some (stop_launched cancelled cancelled_meanwhile f)
      else none),
  (f, s),
)

abbrev pub first_problem : List SpecProblem → Bool → Option CreateResult
first_problem (problem ∷ rest) no_secret = some (stop validate (spec_refused problem))
first_problem [] true = some (stop validate no_master_secret)
first_problem [] false = none

abbrev pub created_as : Frame → CreateResult
created_as f = record {
  ok = true;
  step = done;
  reason = nothing_said;
  container = container_name f.spec;
  ports = f.spec.ports;
  diagnosed = none;
}

abbrev pub has_effects : Frame → Bool
has_effects f = f.launched || f.capped || not (is_empty f.created_volumes)

abbrev pub new_frame : JobSpec → Frame
new_frame spec = record { spec = spec; created_volumes = []; capped = false; launched = false }

abbrev pub forget_if : {World : Type 0} → Bool → Text → State World → State World
forget_if true job_id s = record s { store = map_option (erase job_id) s.store }
forget_if false job_id s = s

abbrev pub finished : {World : Type 0} → Text → State World → State World
finished job_id s = record s { inflight = map_option (finish job_id) s.inflight }

abbrev pub started : {World : Type 0} → Text → State World → State World
started job_id s = record s { inflight = map_option (start job_id) s.inflight }
