-- ===== src/Jobs/Examples.antt =====
-- A rig on which every command succeeds with an empty answer, whose clock is its world, and a job
-- on it: its volume is made, but no device is found, so the volume is removed again.
use microtensor_compute.Common.{
  All, ℕ, ◌+◌, ◌≤◌, ◌≡◌, refl, true, false, [], ◌∷◌, ◌++◌, none, some, arith, contains,
}
use microtensor_compute.Common.Int.{pos}
use microtensor_compute.Common.Text.{Text, codes, text_eq, text_instance}
use microtensor_compute.Work.Power.{Smi}
use microtensor_compute.Jobs.Volumes.{VolumeSpec}
use microtensor_compute.Jobs.Spec.{JobSpec}
use microtensor_compute.Jobs.Ports.{parse_range, reserve}
use microtensor_compute.Jobs.Remote.{
  Host, State, Command, CommandResult, volume, is_left, list_mounts, list_volumes, create_volume,
}
use microtensor_compute.Jobs.Launch.{
  poll, launch_until, wait_running, docker_run, poll_seconds, port_retry_seconds,
}
use microtensor_compute.Jobs.Waiting.{Advances, waiting_enough}
use microtensor_compute.Jobs.Storage.{list_ours, mounted_volumes, remove_stale_volumes}
use microtensor_compute.Jobs.Create.{create}
use microtensor_compute.Jobs.Frames.{devices}
use microtensor_compute.Jobs.Rollback.{create_undone}
use microtensor_compute.Jobs.Teardown.{Extras}
use microtensor_compute.Jobs.Reserving.{IsReservation, reserve-IsReservation}
use microtensor_compute.Jobs.Sweeping.{Teardown, TeardownRetries}
use microtensor_compute.Jobs.Clearing.{WasRemoved, remove_stale_volumes-clears}

abbrev saying : Text → CommandResult
saying text = record { exit_code = pos 0; stdout = text; stderr = []; error = [] }

abbrev answer : Command → ℕ → CommandResult × ℕ
answer list_volumes time = (saying (codes "mt-vol-a\nmt-vol-b\n"), time + 1)
answer list_mounts time = (saying (codes "mt-vol-b,/data\n"), time + 1)
answer command time = (saying [], time + 1)

abbrev no_limits : Smi ℕ
no_limits = record {
  read_state = λ uuid time. none;
  write_limit = λ uuid watts time. (false, time);
}

abbrev rig : Host ℕ
rig = record {
  answer = answer;
  smi = no_limits;
  now = λ time. time;
  sleep = λ seconds time. time + seconds;
  cancels = λ time. [];
  parse_state = λ text. none;
  split = λ text. some [];
  has_secret = true;
  save_works = λ time. true;
}

abbrev nothing_done : State ℕ
nothing_done = record {
  world = 0;
  log = [];
  records = none;
  inflight = some (record { cancelled = []; active = [] });
  store = none;
}

abbrev digits_16 : Text
digits_16 = codes "0123456789abcdef"

abbrev image : Text
image = codes "cuda@sha256:" ++ digits_16 ++ digits_16 ++ digits_16 ++ digits_16

abbrev scratch : VolumeSpec
scratch = record {
  name = codes "mt-vol-a";
  mount_path = codes "/data";
  size_gb = 10;
  driver = [];
  sparse = false;
  encrypted = false;
  create = true;
}

abbrev job : JobSpec
job = record {
  job_id = codes "j1";
  kind = codes "mining";
  image = image;
  gpu_uuids = (codes "GPU-0000" ++ digits_16 ++ digits_16) ∷ [];
  owner = [];
  memory_gb = 8;
  cpus = 4;
  storage_gb = 0;
  shm_size = codes "1g";
  ports = [];
  container_ports = 22 ∷ 80 ∷ [];
  port_range = codes "4000-4001";
  env = [];
  command = [];
  entrypoint = [];
  volumes = scratch ∷ [];
  whole_node = false;
  devices = [];
  isolation = false;
  power_caps = [];
  quotas_supported = false;
  workspace_user = [];
}

at_devices : (create rig (image ∷ []) [] job nothing_done).0.step ≡ devices
unfolding create
at_devices = refl

advances : Advances rig
advances = (λ command time. ticks command time, λ seconds time. omega arith)
  where
    ticks : (command : Command) (time : ℕ) → time ≤ (answer command time).1
    ticks list_volumes time = omega arith
    ticks list_mounts time = omega arith
    ticks _ time = omega arith

waiting_enough_example :
    (poll rig 12 (0 + poll_seconds) [] (codes "mt-j1") nothing_done
      ≡ wait_running rig (codes "mt-j1") nothing_done)
    × (launch_until rig 20 (0 + port_retry_seconds) job nothing_done
        ≡ docker_run rig job nothing_done)
waiting_enough_example =
    waiting_enough rig 12 20 (codes "mt-j1") job nothing_done advances (omega arith) (omega arith)

reserve-IsReservation_example :
    IsReservation (4000 ∷ []) job (parse_range (codes "4000-4001")) (reserve job (4000 ∷ []))
reserve-IsReservation_example = reserve-IsReservation job (4000 ∷ []) refl

-- Two volumes were made, of which the rig lists the second as mounted.
abbrev both_made : State ℕ
both_made = record nothing_done {
  log =
      (create_volume (codes "mt-vol-a") [], saying [])
      ∷ (create_volume (codes "mt-vol-b") [], saying [])
      ∷ [];
}

remove_stale_volumes-clears_example :
    (is_left (volume (codes "mt-vol-a")) (remove_stale_volumes rig both_made).1.log ≡ false)
    × All (WasRemoved rig) (remove_stale_volumes rig both_made).0
remove_stale_volumes-clears_example =
    remove_stale_volumes-clears rig (codes "mt-vol-a") (codes "mt-vol-b" ∷ []) both_made
      (unfold mounted_volumes list_ours in refl) (unfold list_ours contains in refl)
      (unfold contains text_eq in refl)

abbrev extras : Extras
extras = record { job_id = codes "j1"; volume_names = codes "mt-vol-a" ∷ []; prune_images = true }

no_device : (create rig (image ∷ []) [] job both_made).0.ok ≡ false
unfolding create
no_device = refl

create_undone_example : is_left (volume (codes "mt-vol-b")) both_made.log ≡ true
create_undone_example =
    create_undone rig (image ∷ []) [] job both_made (volume (codes "mt-vol-b")) no_device
      (unfold create is_left in refl)

abbrev teardown : Text → Teardown
teardown rig_id = record { rig_id = rig_id; job_id = codes "j1"; volumes = []; attempts = 1 }

abbrev waiting_teardowns : TeardownRetries
waiting_teardowns =
    (codes "mt-j1", teardown (codes "r1")) ∷ (codes "mt-j2", teardown (codes "r2")) ∷ []
