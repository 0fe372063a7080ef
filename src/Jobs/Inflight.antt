-- ===== src/Jobs/Inflight.antt =====
-- Inflight of validator/work/containers.py. The event that `wait` waits for is not modelled.
use microtensor_compute.Common.{
  ◌≡◌, refl, not, Bool, true, false, List, [], ◌∷◌, if◌then◌else◌, contains, keep_if, arith,
}
use microtensor_compute.Common.Text.{Text, text_eq, text_eq_refl, text_eq_sound, text_instance}

-- The jobs that are being created, and those of them that were cancelled.
pub record Inflight : Type 0 where
  pub cancelled : List Text
  pub active : List Text

abbrev pub without_job : Text → List Text → List Text
without_job job_id = keep_if (λ other. not (text_eq other job_id))

unfoldable pub start : Text → Inflight → Inflight
unfolding keep_if text_eq
start job_id i = record {
  cancelled = without_job job_id i.cancelled;
  active = job_id ∷ without_job job_id i.active;
}

unfoldable pub finish : Text → Inflight → Inflight
unfolding keep_if text_eq
finish job_id i = record {
  cancelled = without_job job_id i.cancelled;
  active = without_job job_id i.active;
}

unfoldable pub cancel : Text → Inflight → Bool × Inflight
unfolding contains text_eq
cancel job_id i =
    if contains job_id i.active
    then (true, record i { cancelled = job_id ∷ i.cancelled })
    else (false, i)

unfoldable pub is_cancelled : Text → Inflight → Bool
unfolding contains text_eq
is_cancelled job_id i = contains job_id i.cancelled

unfoldable pub cancel_each : List Text → Inflight → Inflight
unfolding cancel
cancel_each [] i = i
cancel_each (job_id ∷ rest) i = cancel_each rest (cancel job_id i).1

contains-without_job :
    (job_id : Text) (xs : List Text) → contains job_id (without_job job_id xs) ≡ false
unfolding contains keep_if
contains-without_job job_id [] = refl
contains-without_job job_id (x ∷ xs) =
    ground (arith, contains-without_job job_id xs, text_eq_sound job_id x, text_eq_refl job_id)

-- A job that was finished is neither active nor cancelled.
abbrev pub IsForgotten : Text → Inflight → Type 0
IsForgotten job_id i = (contains job_id i.active ≡ false) × (is_cancelled job_id i ≡ false)

pub finish-IsForgotten : (job_id : Text) (i : Inflight) → IsForgotten job_id (finish job_id i)
unfolding finish is_cancelled
finish-IsForgotten job_id i =
    (contains-without_job job_id i.active, contains-without_job job_id i.cancelled)
