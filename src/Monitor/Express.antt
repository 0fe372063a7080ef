-- ===== src/Monitor/Express.antt =====
-- validator/schedule/express.py: the probe of one rig and the signals that it raises. What the
-- agent answers is an argument, none where the call fails; the limiter and the log are not
-- modelled.
pub mod Laws
use microtensor_compute.Common.{
  ℕ, suc, ◌+◌, ◌-◌, ◌≤◌, ◌<◌, ◌≡◌, refl, inl, inr, ◌⊎◌, ◌&&◌, ◌||◌, not, Bool, true, false, List,
  [], ◌∷◌, ◌++◌, Option, none, some, Dict, arith, if◌then◌else◌, leb, ltb, eqb, is_empty, contains,
  lookup, insert, erase, from_option, length, drop, keep_if, map, take, ◌∙◌, ap, sym, Bool-cases,
  Option-cases, lookup-insert_self, lookup-insert, lookup-erase, has_key,
}
use microtensor_compute.Common.Text.{Text, text_eq, text_instance, text_eq_refl, text_eq_iff}
use microtensor_compute.Monitor.Uptime.{UptimeLedger, observe}

abbrev pub unreachable_ticks : ℕ
unreachable_ticks = 3

abbrev pub busy_percent : ℕ
busy_percent = 50

abbrev pub signal_history : ℕ
signal_history = 500

pub record Card : Type 0 where
  pub uuid : Text
  pub percent : ℕ
  pub processes : ℕ

pub record Rig : Type 0 where
  pub id : Text
  pub hotkey : Text
  pub jobs_running : ℕ

pub data SignalKind : Type 0 where
  idle_while_placed : ℕ → SignalKind
  busy_without_assignment : List Text → SignalKind
  unreachable : ℕ → SignalKind

pub record Signal : Type 0 where
  pub rig_id : Text
  pub owner : Text
  pub kind : SignalKind
  pub at : ℕ

unfoldable pub owner_of : Rig → Text
owner_of rig = if is_empty rig.hotkey then rig.id else rig.hotkey

abbrev pub is_busy : Card → Bool
is_busy card = leb busy_percent card.percent || ltb 0 card.processes

unfoldable pub utilisation_signal : Rig → List Card → Option SignalKind
unfolding keep_if
utilisation_signal rig gpus =
    let busy = map (λ c. c.uuid) (keep_if is_busy gpus) in
    if is_empty gpus
    then none
    else if ltb 0 rig.jobs_running && is_empty busy
    then some (idle_while_placed rig.jobs_running)
    else if eqb rig.jobs_running 0 && not (is_empty busy)
    then some (busy_without_assignment (take 4 busy))
    else none

pub record ExpressLane : Type 0 where
  pub ledger : UptimeLedger
  pub unreachable : Dict Text ℕ
  pub early_due : List Text
  pub signals : List Signal

-- `set.add`
abbrev pub add_to : Text → List Text → List Text
add_to x xs = if contains x xs then xs else xs ++ x ∷ []

-- The deque drops its oldest signals beyond its length.
unfoldable pub record_signal : Rig → SignalKind → ℕ → ExpressLane → ExpressLane
unfolding owner_of
record_signal rig kind now lane =
    let signals =
      lane.signals
      ++ record { rig_id = rig.id; owner = owner_of rig; kind = kind; at = now } ∷ [] in
    record lane { signals = drop (length signals - signal_history) signals }

-- The branch of `probe` for an AgentError.
unfoldable pub probe_failed : Rig → ℕ → ExpressLane → ExpressLane
unfolding observe lookup insert text_eq contains record_signal
probe_failed rig now lane =
    let count = from_option 0 (lookup rig.id lane.unreachable) + 1 in
    let counted = record lane {
      ledger = observe rig.id false now lane.ledger;
      unreachable = insert rig.id count lane.unreachable;
    } in
    if eqb count unreachable_ticks
    then record_signal rig (unreachable count) now
        (record counted { early_due = add_to rig.id counted.early_due })
    else counted

unfoldable pub probe_answered : Rig → List Card → ℕ → ExpressLane → ExpressLane
unfolding observe erase text_eq utilisation_signal record_signal
probe_answered rig gpus now lane =
    let reached = record lane {
      ledger = observe rig.id true now lane.ledger;
      unreachable = erase rig.id lane.unreachable;
    } in
    elim (utilisation_signal rig gpus) [
      | none ↦ reached
      | some kind ↦ record_signal rig kind now reached
    ]

unfoldable pub probe : Rig → Option (List Card) → ℕ → ExpressLane → ExpressLane
unfolding probe_failed probe_answered
probe rig none now lane = probe_failed rig now lane
probe rig (some gpus) now lane = probe_answered rig gpus now lane

unfoldable pub take_early_due : ExpressLane → List Text × ExpressLane
take_early_due lane = (lane.early_due, record lane { early_due = [] })

-- Probes of one rig, one after the other.
unfoldable pub probe_all : Rig → List (Option (List Card) × ℕ) → ExpressLane → ExpressLane
unfolding probe
probe_all rig [] lane = lane
probe_all rig ((answer, now) ∷ rest) lane = probe_all rig rest (probe rig answer now lane)

-- How many probes in a row have failed, as the lane counts them.
unfoldable pub failed_ticks : Text → ExpressLane → ℕ
unfolding lookup text_eq
failed_ticks rig_id lane = from_option 0 (lookup rig_id lane.unreachable)
