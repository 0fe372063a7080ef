-- ===== src/Jobs/Remote.antt =====
-- The rig as the validator sees it through Runner of validator/session/runner.py: a command gets an
-- answer, an unreachable rig too (SshRunner.run turns its exceptions into results). The rig is a
-- parameter, and a log keeps each command with its answer, the latest first, so that theorems can
-- say what was done on the rig. While a command runs, others may cancel jobs. With JobStore of
-- validator/work/containers.py: its files by job.
use microtensor_compute.Common.{
  ℕ, zero, ◌-◌, ◌&&◌, not, Bool, true, false, List, [], ◌∷◌, Option, none, some, Dict,
  if◌then◌else◌, is_empty, length, drop,
}
use microtensor_compute.Common.Text.{Text, text_eq, text_instance}
use microtensor_compute.Common.Int.{ℤ, pos, negsuc}
use microtensor_compute.Work.Power.{PowerRecords, Smi}
use microtensor_compute.Jobs.Spec.{JobSpec}
use microtensor_compute.Jobs.Inflight.{Inflight, cancel_each}

pub record CommandResult : Type 0 where
  pub exit_code : ℤ
  pub stdout : Text
  pub stderr : Text
  pub error : Text

abbrev pub is_zero_code : ℤ → Bool
is_zero_code (pos zero) = true
is_zero_code _ = false

abbrev pub is_negative : ℤ → Bool
is_negative (negsuc n) = true
is_negative (pos n) = false

unfoldable pub succeeded : CommandResult → Bool
succeeded result = is_zero_code result.exit_code && is_empty result.error

unfoldable pub transport_failed : CommandResult → Bool
transport_failed result = not (is_empty result.error) && is_negative result.exit_code

-- `text[-n:]`
unfoldable pub tail_of : ℕ → Text → Text
tail_of n text = drop (length text - n) text

abbrev pub text_or : Text → Text → Text
text_or first second = if is_empty first then second else first

-- The commands that the source sends to the rig. One that starts a container, or makes a volume,
-- carries the name and the argument list; the sweep over wedged cards stands for the commands of
-- validator/recovery/gpu_wedge.py (Monitor.Wedge), whose result is only reported here.
pub data Command : Type 0 where
  list_ports : Command
  pull : Text → Command
  remove_container : Text → Command
  remove_with_volumes : Text → Command
  stop_container : ℕ → Text → Command
  run_container : Text → List Text → Command
  inspect_state : Text → Command
  read_logs : Text → Command
  remove_probes : Command
  prune : Command
  probe_devices : Command
  wedge_sweep : Command
  create_volume : Text → List Text → Command
  remove_volume : Text → Command
  list_volumes : Command
  list_mounts : Command
  write_script : Text → Text → Command
  run_script : Text → Command
  read_mounts : Text → Command
  own_path : Text → Text → Text → Command

abbrev pub Entry : Type 0
Entry = Command × CommandResult

abbrev pub map_option {ℓ κ} : {A : Type ℓ} {B : Type κ} → (A → B) → Option A → Option B
map_option f none = none
map_option f (some a) = some (f a)

abbrev pub JobStore : Type 0
JobStore = Dict Text (JobSpec × Text)

-- What `docker inspect` tells of a container's state, as JSON.
pub record ContainerState : Type 0 where
  pub running : Bool
  pub status : Text
  pub exit_code : Text

-- A rig: what a command answers and what it changes, the power limits of its cards, the clock and
-- what waiting does; with the JSON reader, shlex.split, the master secret's presence and whether
-- the validator's own disk takes a write.
pub record Host (World : Type 0) : Type 0 where
  pub answer : Command → World → CommandResult × World
  pub smi : Smi World
  pub now : World → ℕ
  pub sleep : ℕ → World → World
  pub cancels : World → List Text
  pub parse_state : Text → Option ContainerState
  pub split : Text → Option (List Text)
  pub has_secret : Bool
  pub save_works : World → Bool

-- What a run of the source works on: the rig, the log, and the objects of the validator that its
-- caller may leave out.
pub record State (World : Type 0) : Type 0 where
  pub world : World
  pub log : List Entry
  pub records : Option PowerRecords
  pub inflight : Option Inflight
  pub store : Option JobStore

module _ {World : Type 0} (host : Host World) where
  abbrev pub after_command : Command → CommandResult × World → State World → State World
  after_command command (result, world) s = record s {
    world = world;
    log = (command, result) ∷ s.log;
    inflight = map_option (cancel_each (host.cancels world)) s.inflight;
  }

  unfoldable pub run : Command → State World → CommandResult × State World
  unfolding cancel_each
  run command s =
      let (result, world) = host.answer command s.world in
      (result, after_command command (result, world) s)

-- What a command can leave on the rig.
pub data Resource : Type 0 where
  container : Text → Resource
  volume : Text → Resource

abbrev pub makes : Command → Resource → Bool
makes (run_container name arguments) (container other) = text_eq name other
makes (create_volume name arguments) (volume other) = text_eq name other
makes _ _ = false

-- `docker rm -f` takes a container away whether or not it takes the volumes without a name along.
abbrev pub removes : Command → Resource → Bool
removes (remove_container name) (container other) = text_eq name other
removes (remove_with_volumes name) (container other) = text_eq name other
removes (remove_volume name) (volume other) = text_eq name other
removes _ _ = false

-- By the log, the rig was told to make the resource, answered that it did, and was not told to
-- remove it since. A removal counts when it is asked for, whatever is answered; a command to make
-- that was answered with a failure counts as having made nothing.
unfoldable pub is_left : Resource → List Entry → Bool
unfolding text_eq succeeded
is_left x [] = false
is_left x ((command, result) ∷ older) =
    let before = is_left x older in
    if makes command x && succeeded result
    then true
    else if removes command x
    then false
    else before
