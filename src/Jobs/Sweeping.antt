-- ===== src/Jobs/Sweeping.antt =====
-- validator/storage/sweep.py: the teardowns of a rig that are tried again, and the containers of
-- jobs that no longer run. The file of the pending teardowns is the dictionary; the moments at
-- which they were recorded are left out.
use microtensor_compute.Common.{
  ℕ, suc, ◌&&◌, not, Bool, true, false, List, [], ◌∷◌, ◌++◌, Option, none, some, Dict,
  if◌then◌else◌, is_empty, contains, keep_if, lookup, insert, erase,
}
use microtensor_compute.Common.Text.{Text, text_eq, text_instance}
use microtensor_compute.Verify.Exclusivity.{OwnContainer}
use microtensor_compute.Jobs.Volumes.{prefix, valid}
use microtensor_compute.Jobs.Remote.{Host, State, text_or}
use microtensor_compute.Jobs.Teardown.{DestroyReason, DestroyResult, destroy}

pub record Teardown : Type 0 where
  pub rig_id : Text
  pub job_id : Text
  pub volumes : List Text
  pub attempts : ℕ

abbrev pub TeardownRetries : Type 0
TeardownRetries = Dict Text Teardown

abbrev pub attempts_of : Option Teardown → ℕ
attempts_of none = 0
attempts_of (some entry) = entry.attempts

unfoldable pub add_teardown : Text → Text → Text → List Text → TeardownRetries → TeardownRetries
unfolding lookup insert text_eq
add_teardown rig_id name job_id volume_names pending =
    insert name
      (record {
        rig_id = rig_id;
        job_id = job_id;
        volumes = volume_names;
        attempts = suc (attempts_of (lookup name pending));
      })
      pending

unfoldable pub forget_teardown : Text → TeardownRetries → TeardownRetries
unfolding erase text_eq
forget_teardown name pending = erase name pending

unfoldable pub for_rig : Text → TeardownRetries → TeardownRetries
unfolding keep_if text_eq
for_rig rig_id pending = keep_if (λ item. text_eq item.1.rig_id rig_id) pending

-- What is done and what failed, with the reasons.
pub record Report : Type 0 where
  pub removed : List Text
  pub errors : List (Text × DestroyReason)

abbrev pub no_report : Report
no_report = record { removed = []; errors = [] }

abbrev pub reported : Text → Bool → DestroyReason → Report → Report
reported name true why report = record report { removed = name ∷ report.removed }
reported name false why report = record report { errors = (name, why) ∷ report.errors }

abbrev pub filler_grace : ℕ
filler_grace = 15

abbrev pub after_retry : Text → Text → Teardown → Bool → TeardownRetries → TeardownRetries
after_retry rig_id name entry true pending = forget_teardown name pending
after_retry rig_id name entry false pending =
    add_teardown rig_id name entry.job_id entry.volumes pending

abbrev pub job_volumes : Text → List Text
job_volumes job = if not (is_empty job) && valid (prefix ++ job) then (prefix ++ job) ∷ [] else []

module _ {World : Type 0} (host : Host World) where
  abbrev pub torn : Text → Teardown → State World → DestroyResult × State World
  torn name entry s =
      destroy host
        (record { job_id = entry.job_id; volume_names = entry.volumes; prune_images = false }) name
        filler_grace s

  -- The loop over the rig's pending teardowns.
  unfoldable pub retry_each :
      Text
      → List (Text × Teardown)
      → TeardownRetries
      → State World
      → Report × (TeardownRetries × State World)
  unfolding destroy forget_teardown add_teardown
  retry_each rig_id [] pending s = (no_report, (pending, s))
  retry_each rig_id ((name, entry) ∷ rest) pending s =
      let (outcome, after) = torn name entry s in
      let (report, final) =
        retry_each rig_id rest (after_retry rig_id name entry outcome.ok pending) after in
      (reported name outcome.ok outcome.reason report, final)

  unfoldable pub retry_teardowns :
      Text → TeardownRetries → State World → Report × (TeardownRetries × State World)
  unfolding retry_each for_rig
  retry_teardowns rig_id pending s = retry_each rig_id (for_rig rig_id pending) pending s

  abbrev pub shown_name : OwnContainer → Text
  shown_name container = text_or container.name container.id

  abbrev pub is_running : List Text → OwnContainer → Bool
  is_running running_jobs container =
      not (is_empty container.job) && contains container.job running_jobs

  -- The containers of the validator whose job does not run, once they are listed.
  unfoldable pub orphaned_containers :
      List Text → List OwnContainer → State World → Report × State World
  unfolding contains text_eq destroy valid
  orphaned_containers running_jobs [] s = (no_report, s)
  orphaned_containers running_jobs (container ∷ rest) s = elim (is_running running_jobs container) [
    | true ↦ orphaned_containers running_jobs rest s
    | false ↦
        let (outcome, after) =
          destroy host
            (record {
              job_id = container.job;
              volume_names = job_volumes container.job;
              prune_images = false;
            })
            (shown_name container) filler_grace s in
        let (report, final) = orphaned_containers running_jobs rest after in
        (reported (shown_name container) outcome.ok outcome.reason report, final)
  ]
