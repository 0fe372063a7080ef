-- ===== src/Work/Rigs.antt =====
-- validator/work/placement.py: the rigs of the roster, whether one may take a kind of work, the
-- jobs on its cards, and when a new job shares a card or takes it. A rig is the roster entry's
-- fields that are read; an amount of reliability is a number of any unit, since it is only
-- compared.
use microtensor_compute.Common.{
  ℕ, ◌&&◌, ◌||◌, not, Bool, true, false, List, [], ◌∷◌, ◌++◌, Option, none, some, Dict,
  if◌then◌else◌, leb, is_empty, keep_if, all_of, any_of, contains, lookup, insert, has_key,
  from_option,
}
use microtensor_compute.Common.Text.{Text, codes, text_eq, text_instance}
use microtensor_compute.Work.Tiers.{WorkKind, rental, inference, shaping, mining, Reason, kind_eqb}

-- The fields of protocol/session.py `JobRecord` that placement reads.
pub record JobRecord : Type 0 where
  pub job_id : Text
  pub kind : Text
  pub gpu_uuid : Text

pub record KindEntry : Type 0 where
  pub eligible : Bool
  pub reasons : List Reason

pub record Rig : Type 0 where
  pub id : Text
  pub state : Text
  pub online : Bool
  pub draining : Bool
  pub rental_opt_out : Bool
  pub kinds : WorkKind → Option KindEntry
  pub gpus : List Text
  pub reliability : ℕ

abbrev pub verified_states : List Text
verified_states = codes "probation" ∷ codes "active" ∷ []

unfoldable pub kind_of : Text → Option WorkKind
unfolding text_eq
kind_of text =
    if text_eq text (codes "rental")
    then some rental
    else if text_eq text (codes "inference")
    then some inference
    else if text_eq text (codes "shaping")
    then some shaping
    else if text_eq text (codes "mining")
    then some mining
    else none

-- RANK: the place in PRIORITY.
abbrev pub rank : WorkKind → ℕ
rank rental = 0
rank inference = 1
rank shaping = 2
rank mining = 3

abbrev pub sensitive : WorkKind → Bool
sensitive kind = kind_eqb kind rental

abbrev pub customer : WorkKind → Bool
customer kind = kind_eqb kind inference

pub data RigReason : Type 0 where
  bad_state : Text → RigReason
  offline is_draining declined_rental no_record : RigReason
  not_eligible : Option Reason → RigReason
  whole_node_of : ℕ → RigReason
  only_available : ℕ → RigReason

abbrev pub first {ℓ} : {A : Type ℓ} → List A → Option A
first [] = none
first (x ∷ xs) = some x

unfoldable pub entry_reason : Option KindEntry → Option RigReason
entry_reason none = some no_record
entry_reason (some entry) =
    if not entry.eligible then some (not_eligible (first entry.reasons)) else none

-- none is the empty reason.
unfoldable pub ineligible_reason : Rig → WorkKind → Option RigReason
unfolding contains text_eq entry_reason
ineligible_reason rig kind =
    if not (contains rig.state verified_states)
    then some (bad_state rig.state)
    else if not rig.online
    then some offline
    else if rig.draining
    then some is_draining
    else if kind_eqb kind rental && rig.rental_opt_out
    then some declined_rental
    else entry_reason (rig.kinds kind)

-- `{uuid: [] for uuid in uuids}`
unfoldable pub no_jobs : List Text → Dict Text (List JobRecord) → Dict Text (List JobRecord)
unfolding insert text_eq
no_jobs [] table = table
no_jobs (uuid ∷ uuids) table = no_jobs uuids (insert uuid [] table)

-- `for uuid in targets: table[uuid].append(job)`; every target is a key of the table.
unfoldable pub append_to :
    JobRecord → List Text → Dict Text (List JobRecord) → Dict Text (List JobRecord)
unfolding insert lookup text_eq
append_to job [] table = table
append_to job (uuid ∷ uuids) table =
    append_to job uuids (insert uuid (from_option [] (lookup uuid table) ++ job ∷ []) table)

-- A job that names no card of the rig stands on all of them.
unfoldable pub append_jobs :
    List Text → List JobRecord → Dict Text (List JobRecord) → Dict Text (List JobRecord)
unfolding append_to lookup
append_jobs uuids [] table = table
append_jobs uuids (job ∷ jobs) table =
    let targets =
      if not (is_empty job.gpu_uuid) && has_key job.gpu_uuid table
      then job.gpu_uuid ∷ []
      else uuids in
    append_jobs uuids jobs (append_to job targets table)

unfoldable pub occupancy : Rig → List JobRecord → Dict Text (List JobRecord)
unfolding keep_if no_jobs append_jobs
occupancy rig jobs =
    let uuids = keep_if (λ uuid. not (is_empty uuid)) rig.gpus in
    append_jobs uuids jobs (no_jobs uuids [])

abbrev pub is_sensitive : Option WorkKind → Bool
is_sensitive none = false
is_sensitive (some kind) = sensitive kind

abbrev pub is_customer : Option WorkKind → Bool
is_customer none = false
is_customer (some kind) = customer kind

unfoldable pub can_share : List JobRecord → WorkKind → Bool
unfolding any_of all_of kind_of
can_share existing kind =
    if is_empty existing
    then true
    else if sensitive kind || any_of (λ job. is_sensitive (kind_of job.kind)) existing
    then false
    else if customer kind
    then all_of (λ job. is_customer (kind_of job.kind)) existing
    else false

-- The turn of the loop of `can_displace` for one job.
abbrev pub can_displace_job : WorkKind → Option WorkKind → Bool
can_displace_job kind none = false
can_displace_job kind (some current) =
    not (leb (rank current) (rank kind)) && not (sensitive current || customer current)

unfoldable pub can_displace : List JobRecord → WorkKind → Bool
unfolding all_of kind_of
can_displace existing kind =
    if is_empty existing
    then false
    else all_of (λ job. can_displace_job kind (kind_of job.kind)) existing
