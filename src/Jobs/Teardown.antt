-- ===== src/Jobs/Teardown.antt =====
-- destroy and recreate of validator/work/containers.py. The report of the steps is left out.
use microtensor_compute.Common.{
  ℕ, ◌&&◌, ◌||◌, not, Bool, true, false, List, [], ◌∷◌, none, if◌then◌else◌, is_empty, erase,
}
use microtensor_compute.Common.Text.{Text, codes, text_instance, text_eq, occurs_in, lower}
use microtensor_compute.Work.Power.{restore_job}
use microtensor_compute.Jobs.Names.{is_name}
use microtensor_compute.Jobs.Volumes.{VolumeSpec}
use microtensor_compute.Jobs.Spec.{JobSpec, container_name, stop_grace}
use microtensor_compute.Jobs.Remote.{
  Host, State, CommandResult, run, succeeded, transport_failed, map_option, stop_container,
  remove_with_volumes, wedge_sweep, prune,
}
use microtensor_compute.Jobs.Create.{destroy_volumes, restored, create}
use microtensor_compute.Jobs.Frames.{CreateResult, stop, destroying, not_destroyed}

pub data DestroyReason : Type 0 where
  no_reason : DestroyReason
  name_not_accepted : Text → DestroyReason
  stop_said : Text → DestroyReason
  removal_said : CommandResult → DestroyReason

pub record DestroyResult : Type 0 where
  pub ok : Bool
  pub reason : DestroyReason
  pub retry_later : Bool

abbrev pub failed : DestroyReason → Bool → DestroyResult
failed reason retry_later = record { ok = false; reason = reason; retry_later = retry_later }

-- What is to be done besides the container: the power of a job and its record, its volumes and the
-- images that nothing uses.
pub record Extras : Type 0 where
  pub job_id : Text
  pub volume_names : List Text
  pub prune_images : Bool

unfoldable pub is_removed : CommandResult → Bool
unfolding succeeded occurs_in
is_removed result = succeeded result || occurs_in (codes "no such container") (lower result.stderr)

unfoldable pub is_in_progress : CommandResult → Bool
unfolding occurs_in transport_failed
is_in_progress result =
    (occurs_in (codes "removal") (lower result.stderr)
      && occurs_in (codes "in progress") (lower result.stderr))
    || transport_failed result

abbrev pub kept_volumes : List VolumeSpec → List VolumeSpec
kept_volumes [] = []
kept_volumes (volume ∷ volumes) = record volume { create = false } ∷ kept_volumes volumes

module _ {World : Type 0} (host : Host World) where
  abbrev pub pruned : Bool → State World → State World
  pruned true s = (run host prune s).1
  pruned false s = s

  abbrev pub forgotten : Text → State World → State World
  forgotten job_id s =
      if is_empty job_id then s else record s { store = map_option (erase job_id) s.store }

  -- What follows the removal.
  abbrev pub after_removal :
      Extras → Bool → CommandResult → State World → DestroyResult × State World
  after_removal extras false result s =
      (failed (removal_said result) (is_in_progress result), (run host wedge_sweep s).1)
  after_removal extras true result s =
      let cooled = restored host (not (is_empty extras.job_id)) extras.job_id s.records s in
      let swept = pruned extras.prune_images (run host wedge_sweep cooled).1 in
      (
        record { ok = true; reason = no_reason; retry_later = false },
        forgotten extras.job_id (destroy_volumes host extras.volume_names swept),
      )

  abbrev pub after_stop :
      Bool → Extras → Text → CommandResult → State World → DestroyResult × State World
  after_stop true extras name result s = (failed (stop_said result.error) true, s)
  after_stop false extras name result s =
      let (removed, after) = run host (remove_with_volumes name) s in
      after_removal extras (is_removed removed) removed after

  unfoldable pub destroy : Extras → Text → ℕ → State World → DestroyResult × State World
  unfolding is_name run is_removed is_in_progress transport_failed destroy_volumes restore_job erase
      text_eq
  destroy extras name grace s = elim (is_name 80 name) [
    | false ↦ (failed (name_not_accepted name) false, s)
    | true ↦
        let (stopped, after) = run host (stop_container grace name) s in
        after_stop (transport_failed stopped) extras name stopped after
  ]

  abbrev pub after_destroy :
      Bool → List Text → Text → JobSpec → State World → CreateResult × State World
  after_destroy false allowlist rig_id spec s =
      (record (stop destroying not_destroyed) { container = container_name spec }, s)
  after_destroy true allowlist rig_id spec s =
      let (result, p) = create host allowlist rig_id spec (record s { inflight = none }) in
      (result, record p.1 { inflight = s.inflight })

  -- The volumes are kept, and so are the power of the cards and the record of the job; nobody can
  -- cancel it, since the set of the jobs in creation is not passed on.
  unfoldable pub recreate : List Text → Text → JobSpec → State World → CreateResult × State World
  unfolding destroy create stop_grace
  recreate allowlist rig_id spec s =
      let kept = record spec { volumes = kept_volumes spec.volumes; devices = [] } in
      let (torn, after) =
        destroy (record { job_id = []; volume_names = []; prune_images = false })
          (container_name kept) (stop_grace kept) s in
      after_destroy torn.ok allowlist rig_id kept after
