-- ===== src/Deep/Due.antt =====
-- The rigs that a deep pass of validator/schedule/deep.py takes: those that are due, by the pool or
-- by the validator's own interval, and those that the express lane wants early. Moments are
-- seconds, and datetime.fromisoformat is a parameter.
use microtensor_compute.Common.{
  ℕ, ◌+◌, ◌&&◌, not, Bool, true, false, List, [], ◌∷◌, ◌++◌, Option, none, some, map, if◌then◌else◌,
  is_empty, contains, keep_if, eqb, leb,
}
use microtensor_compute.Common.Text.{Text, codes, text_eq, text_instance}

pub record DueRig : Type 0 where
  pub id : Text
  pub state : Text
  pub online : Bool
  pub last_pass : Text

abbrev pub verifiable_states : List Text
verifiable_states = codes "validating" ∷ codes "probation" ∷ codes "active" ∷ codes "failed" ∷ []

abbrev pub default_interval : ℕ
default_interval = 3600

-- `settings.deep_seconds or self.server_interval or DEFAULT_INTERVAL`
unfoldable pub interval : ℕ → ℕ → ℕ
interval deep_seconds server_interval =
    if not (eqb deep_seconds 0)
    then deep_seconds
    else if not (eqb server_interval 0)
    then server_interval
    else default_interval

abbrev pub is_over : Option ℕ → ℕ → ℕ → Bool
is_over none seconds now = true
is_over (some moment) seconds now = leb (moment + seconds) now

abbrev pub is_verifiable : DueRig → Bool
is_verifiable rig = contains rig.state verifiable_states

unfoldable pub locally_due : (Text → Option ℕ) → ℕ → ℕ → DueRig → Bool
unfolding contains text_eq
locally_due read_moment seconds now rig =
    if not (is_verifiable rig && rig.online)
    then false
    else if is_empty rig.last_pass
    then true
    else is_over (read_moment rig.last_pass) seconds now

-- The turn of the loop over the roster adds a rig that is wanted early and is not chosen yet.
unfoldable pub early_rigs : List Text → List Text → List DueRig → List DueRig
unfolding contains text_eq
early_rigs early chosen [] = []
early_rigs early chosen (rig ∷ rigs) =
    elim (contains rig.id early && not (contains rig.id chosen) && is_verifiable rig) [
      | true ↦ rig ∷ early_rigs early (rig.id ∷ chosen) rigs
      | false ↦ early_rigs early chosen rigs
    ]

abbrev pub ids : List DueRig → List Text
ids = map (λ rig. rig.id)

-- What the pool says is due is `answer`; it is asked only where the validator has no interval of
-- its own.
unfoldable pub due_at_first :
    (Text → Option ℕ) → ℕ → ℕ → ℕ → List DueRig → List DueRig → List DueRig
unfolding locally_due keep_if interval
due_at_first read_moment deep_seconds server_interval now roster answer =
    if not (eqb deep_seconds 0)
    then keep_if (locally_due read_moment (interval deep_seconds server_interval) now) roster
    else answer

unfoldable pub due_rigs :
    (Text → Option ℕ) → ℕ → ℕ → ℕ → List DueRig → List DueRig → List Text → List DueRig
unfolding due_at_first early_rigs
due_rigs read_moment deep_seconds server_interval now roster answer early =
    let due = due_at_first read_moment deep_seconds server_interval now roster answer in
    due ++ early_rigs early (ids due) roster

-- The rigs that a pass takes: those that no pass is busy with.
unfoldable pub pending : List Text → List DueRig → List DueRig
unfolding keep_if contains text_eq
pending busy due = keep_if (λ rig. not (contains rig.id busy)) due
