-- ===== src/Jobs/Create.antt =====
-- create and _rollback of validator/work/containers.py. The local variables are a Frame and a stage
-- of the body answers with the result that it returns early with, if it does. Nothing that the body
-- calls raises SshError: only an upload would. A write of the job's record may raise OSError, and a
-- cancelled job raises at the next checkpoint. That the validator's own disk refuses a write of the
-- power records is outside the model: in the rollback such an OSError would leave `create` before
-- the volumes are removed and the job is finished.
use microtensor_compute.Common.{
  ◌&&◌, ◌||◌, not, Bool, true, false, List, [], ◌∷◌, ◌++◌, Option, none, some, if◌then◌else◌,
  is_empty, is_some, any_of, insert, erase,
}
use microtensor_compute.Common.Text.{Text, text_eq, text_instance, strip}
use microtensor_compute.Work.Power.{PowerRecords, apply_caps, restore_job}
use microtensor_compute.Jobs.Inflight.{start, finish, is_cancelled}
use microtensor_compute.Jobs.Volumes.{VolumeSpec}
use microtensor_compute.Jobs.Spec.{JobSpec, PortMapping, spec_problems, container_name}
use microtensor_compute.Jobs.Ports.{PortProblem, has_ports, parse_range, reserve, used_ports}
use microtensor_compute.Jobs.Devices.{DeviceProblem, unreachable, device_nodes, parse_device_probe}
use microtensor_compute.Jobs.Remote.{
  Host, State, CommandResult, run, succeeded, transport_failed, tail_of, text_or, map_option, pull,
  list_ports, probe_devices, remove_container, remove_with_volumes, wedge_sweep,
}
use microtensor_compute.Jobs.Storage.{
  volume_create, volume_destroy, remove_stale_volumes, setup_encrypted, grant_workspace,
}
use microtensor_compute.Jobs.Launch.{docker_run, wait_running, diagnostics, remove_probe_containers}
use microtensor_compute.Jobs.Frames.{
  CreateResult, Frame, stop, stop_launched, stop_diagnosed, stop_if, unless_ok, Point, Stage, Body,
  ◌then◌, is_marked, check_stage, first_problem, created_as, has_effects, new_frame, forget_if,
  finished, started, reserve_ports, pulling, volumes, devices, power, running, encrypted_volumes,
  to_record, launching, ports_refused, pull_said, volume_said, devices_said, no_records_file,
  caps_failed, launch_said, write_failed,
}

module _ {World : Type 0} (host : Host World) where
  unfoldable pub validate_stage : List Text → Stage World
  unfolding spec_problems any_of
  validate_stage allowlist (f, s) = (
    first_problem (spec_problems allowlist f.spec)
        (any_of (λ volume. volume.encrypted) f.spec.volumes && not host.has_secret),
    (f, s),
  )

  abbrev pub with_reserved : List PortMapping × Option PortProblem → Stage World
  with_reserved (ports, some problem) p = (some (stop reserve_ports (ports_refused problem)), p)
  with_reserved (ports, none) (f, s) =
      (none, (record f { spec = record f.spec { ports = ports } }, s))

  -- The ports that are listened on are asked for only where they are needed.
  unfoldable pub reserve_stage : Stage World
  unfolding parse_range reserve run used_ports
  reserve_stage (f, s) = elim (not (has_ports f.spec) && is_some (parse_range f.spec.port_range)) [
    | false ↦ with_reserved (reserve f.spec []) (f, s)
    | true ↦
        let (result, after) = run host list_ports s in
        with_reserved (reserve f.spec (used_ports result.stdout)) (f, after)
  ]

  unfoldable pub pull_stage : Stage World
  unfolding run succeeded strip tail_of
  pull_stage (f, s) =
      let (result, after) = run host (pull f.spec.image) s in
      (
        unless_ok (succeeded result)
            (stop pulling (pull_said (strip (text_or result.error (tail_of 600 result.stdout))))),
        (f, after),
      )

  unfoldable pub cleanup_stage : Stage World
  unfolding run remove_stale_volumes
  cleanup_stage (f, s) =
      let (removed, cleared) = run host (remove_container (container_name f.spec)) s in
      (none, (f, (remove_stale_volumes host cleared).1))

  unfoldable pub make_volumes : List VolumeSpec → Stage World
  unfolding volume_create
  make_volumes [] p = (none, p)
  make_volumes (volume ∷ rest) (f, s) = elim volume.create [
    | false ↦ make_volumes rest (f, s)
    | true ↦
        let (problem, after) = volume_create host volume s in
        elim problem [
          | some reason ↦ (some (stop volumes (volume_said volume.name reason)), (f, after))
          | none ↦
              make_volumes rest
                (record f { created_volumes = f.created_volumes ++ volume.name ∷ [] }, after)
        ]
  ]

  abbrev pub volume_stage : Stage World
  volume_stage p = make_volumes p.0.spec.volumes p

  -- The probe of the devices: an unreachable rig, or what the nodes are.
  unfoldable pub probe_nodes : JobSpec → CommandResult → List Text × Option DeviceProblem
  unfolding device_nodes parse_device_probe transport_failed
  probe_nodes spec result =
      if transport_failed result
      then ([], some (unreachable result.error))
      else device_nodes spec.gpu_uuids spec.whole_node (parse_device_probe result.stdout)

  abbrev pub with_nodes : List Text × Option DeviceProblem → Stage World
  with_nodes (nodes, some problem) p = (some (stop devices (devices_said problem)), p)
  with_nodes (nodes, none) (f, s) =
      (none, (record f { spec = record f.spec { devices = nodes } }, s))

  unfoldable pub device_stage : Stage World
  unfolding run probe_nodes
  device_stage (f, s) =
      let (result, after) = run host probe_devices s in
      with_nodes (probe_nodes f.spec result) (f, after)

  abbrev pub with_caps : Bool × (PowerRecords × World) → Stage World
  with_caps (ok, kept) (f, s) = (
    unless_ok ok (stop power caps_failed),
    (record f { capped = ok }, record s { records = some kept.0; world = kept.1 }),
  )

  abbrev pub cap_with : Option PowerRecords → Stage World
  cap_with none p = (some (stop power no_records_file), p)
  cap_with (some records) (f, s) =
      with_caps (apply_caps host.smi f.spec.job_id f.spec.power_caps (records, s.world)) (f, s)

  unfoldable pub power_stage : Stage World
  unfolding apply_caps
  power_stage (f, s) = elim (is_empty f.spec.power_caps) [
    | true ↦ (none, (f, s))
    | false ↦ cap_with s.records (f, s)
  ]

  abbrev pub probe_stage : Stage World
  probe_stage (f, s) = (none, (f, remove_probe_containers host s))

  unfoldable pub launch_stage : Stage World
  unfolding docker_run
  launch_stage (f, s) =
      let (problem, after) = docker_run host f.spec s in
      (
        stop_if problem (λ reason. stop launching (launch_said reason)),
        (record f { launched = not (is_some problem) }, after),
      )

  unfoldable pub running_stage : Stage World
  unfolding wait_running diagnostics
  running_stage (f, s) =
      let (problem, after) = wait_running host (container_name f.spec) s in
      elim problem [
        | none ↦ (none, (f, after))
        | some reason ↦
            let (found, looked) = diagnostics host (container_name f.spec) after in
            (some (stop_diagnosed running (launch_said reason) f found), (f, looked))
      ]

  abbrev pub after_mount : Frame → VolumeSpec → State World → State World
  after_mount f volume s =
      if is_empty f.spec.workspace_user
      then s
      else (grant_workspace host (container_name f.spec) volume.mount_path f.spec.workspace_user
          s).1

  unfoldable pub mount_encrypted : List VolumeSpec → Stage World
  unfolding setup_encrypted diagnostics
  mount_encrypted [] p = (none, p)
  mount_encrypted (volume ∷ rest) (f, s) = elim volume.encrypted [
    | false ↦ mount_encrypted rest (f, s)
    | true ↦
        let (problem, after) = setup_encrypted host (container_name f.spec) volume s in
        elim problem [
          | none ↦ mount_encrypted rest (f, after_mount f volume after)
          | some reason ↦
              let (found, looked) = diagnostics host (container_name f.spec) after in
              (
                some (stop_diagnosed encrypted_volumes (volume_said volume.name reason) f found),
                (f, looked),
              )
        ]
  ]

  abbrev pub encrypted_stage : Stage World
  encrypted_stage p = mount_encrypted p.0.spec.volumes p

  -- The record is written where there is a store; the file may not take it.
  unfoldable pub record_body : Text → Body World
  unfolding insert text_eq
  record_body rig_id (f, s) =
      let saved = record s { store = map_option (insert f.spec.job_id (f.spec, rig_id)) s.store } in
      if is_some s.store && not (host.save_works s.world)
      then (stop_launched to_record write_failed f, (f, s))
      else (created_as f, (f, saved))

  unfoldable pub create_body : List Text → Text → Body World
  unfolding validate_stage reserve_stage pull_stage cleanup_stage make_volumes device_stage
      power_stage launch_stage running_stage mount_encrypted record_body is_cancelled
      remove_probe_containers
  create_body allowlist rig_id =
      validate_stage allowlist
      then check_stage
      then reserve_stage
      then pull_stage
      then check_stage
      then cleanup_stage
      then volume_stage
      then device_stage
      then power_stage
      then probe_stage
      then check_stage
      then launch_stage
      then running_stage
      then encrypted_stage
      then check_stage
      then record_body rig_id

  unfoldable pub destroy_volumes : List Text → State World → State World
  unfolding volume_destroy
  destroy_volumes [] s = s
  destroy_volumes (name ∷ names) s = destroy_volumes names (volume_destroy host name s).1

  abbrev pub restored : Bool → Text → Option PowerRecords → State World → State World
  restored true job_id (some records) s =
      let kept = restore_job host.smi job_id (records, s.world) in
      record s { records = some kept.0; world = kept.1 }
  restored _ job_id _ s = s

  abbrev pub removed_if : Bool → Text → State World → State World
  removed_if true name s = (run host (remove_with_volumes name) s).1
  removed_if false name s = s

  unfoldable pub rollback : Point World → State World
  unfolding run destroy_volumes restore_job
  rollback (f, s) =
      let gone = removed_if f.launched (container_name f.spec) s in
      let cooled = restored f.capped f.spec.job_id gone.records gone in
      (run host wedge_sweep (destroy_volumes f.created_volumes cooled)).1

  -- The `finally` of create.
  unfoldable pub settle : CreateResult → Point World → State World
  unfolding rollback is_cancelled erase text_eq
  settle result (f, s) =
      if (not result.ok || is_marked f.spec.job_id s) && has_effects f
      then forget_if (is_marked f.spec.job_id s) f.spec.job_id (rollback (f, s))
      else s

  -- The result, the spec with its ports and devices, and the state.
  unfoldable pub create : List Text → Text → JobSpec → State World → CreateResult × Point World
  unfolding create_body settle start finish
  create allowlist rig_id spec s =
      let (result, p) = create_body allowlist rig_id (new_frame spec, started spec.job_id s) in
      (result, (p.0, finished spec.job_id (settle result p)))
