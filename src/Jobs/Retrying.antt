-- ===== src/Jobs/Retrying.antt =====
-- What Jobs.Sweeping makes of the pending teardowns.
use microtensor_compute.Common.{suc, ◌≡◌, ◌⊎◌, List, none, map, In, lookup}
use microtensor_compute.Common.Text.{Text, text_instance}
use microtensor_compute.Jobs.Remote.{Host, State}
use microtensor_compute.Jobs.Sweeping.{Report, Teardown, TeardownRetries, attempts_of, retry_each}

abbrev pub names_of : List (Text × Teardown) → List Text
names_of = map (λ item. item.0)

-- A teardown that was tried again is reported as removed and gone, or it is reported with an error
-- and pending with one attempt more.
abbrev pub IsTried : TeardownRetries → Report → TeardownRetries → Text → Type 0
IsTried before report after name =
    (In name report.removed × (lookup name after ≡ none))
    ⊎ (In name (map (λ error. error.0) report.errors)
        × (attempts_of (lookup name after) ≡ suc (attempts_of (lookup name before))))

module _ {World : Type 0} (host : Host World) where
  abbrev pending_after :
      Text → List (Text × Teardown) → TeardownRetries → State World → TeardownRetries
  pending_after rig_id items pending s = (retry_each host rig_id items pending s).1.0
