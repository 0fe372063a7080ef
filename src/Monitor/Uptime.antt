-- ===== src/Monitor/Uptime.antt =====
-- validator/scoring/reliability.py: the ledger of each rig's uptime, fed by `observe`. Moments and
-- spans are natural numbers of milliseconds; the file that the ledger is kept in is not modelled.
use microtensor_compute.Common.{
  ℕ, ◌+◌, ◌-◌, ◌≤◌, ◌≡◌, refl, ◌&&◌, Bool, false, List, [], ◌∷◌, none, some, Dict, arith,
  if◌then◌else◌, leb, ltb, max, lookup, insert, erase, from_option,
}
use microtensor_compute.Common.Text.{Text, text_eq, text_instance}

abbrev pub max_gap : ℕ
max_gap = 120000

pub record RigReliability : Type 0 where
  pub uptime : ℕ
  pub completed_jobs : ℕ
  pub failed_jobs : ℕ
  pub first_seen : ℕ
  pub last_seen : ℕ
  pub last_online : Bool

abbrev pub new_rig : ℕ → RigReliability
new_rig now = record {
  uptime = 0;
  completed_jobs = 0;
  failed_jobs = 0;
  first_seen = now;
  last_seen = 0;
  last_online = false;
}

abbrev pub UptimeLedger : Type 0
UptimeLedger = Dict Text RigReliability

-- `self.rigs.setdefault(rig_id, RigReliability(first_seen=now))`
abbrev pub rig_of : Text → ℕ → UptimeLedger → RigReliability
rig_of rig_id now ledger = from_option (new_rig now) (lookup rig_id ledger)

-- The gap is only counted where it is above 0 and at most MAX_GAP_SECONDS, so where the clock ran
-- back the difference that stops at 0 is not counted either.
unfoldable pub observe_rig : Bool → ℕ → RigReliability → RigReliability
observe_rig online now rig =
    let gap = now - rig.last_seen in
    let counts = ltb 0 rig.last_seen && rig.last_online && online && ltb 0 gap && leb gap max_gap in
    record rig {
      uptime = if counts then rig.uptime + gap else rig.uptime;
      last_seen = now;
      last_online = online;
    }

unfoldable pub observe : Text → Bool → ℕ → UptimeLedger → UptimeLedger
unfolding observe_rig lookup insert text_eq
observe rig_id online now ledger =
    insert rig_id (observe_rig online now (rig_of rig_id now ledger)) ledger

unfoldable pub record_job : Text → Bool → ℕ → UptimeLedger → UptimeLedger
unfolding lookup insert text_eq
record_job rig_id completed now ledger =
    let rig = rig_of rig_id now ledger in
    insert rig_id
      (if completed
        then record rig { completed_jobs = rig.completed_jobs + 1 }
        else record rig { failed_jobs = rig.failed_jobs + 1 })
      ledger

unfoldable pub uptime_of : Text → UptimeLedger → ℕ
unfolding lookup text_eq
uptime_of rig_id ledger = elim (lookup rig_id ledger) [ none ↦ 0 | some rig ↦ rig.uptime ]

unfoldable pub forget : Text → UptimeLedger → UptimeLedger
unfolding erase text_eq
forget rig_id ledger = erase rig_id ledger

unfoldable pub apply_server_uptime : List (Text × ℕ) → ℕ → UptimeLedger → UptimeLedger
unfolding lookup insert text_eq
apply_server_uptime [] now ledger = ledger
apply_server_uptime ((rig_id, seconds) ∷ rest) now ledger =
    let rig = rig_of rig_id now ledger in
    apply_server_uptime rest now
      (insert rig_id (record rig { uptime = max rig.uptime seconds }) ledger)

-- Observations of one rig, in the order in which they came.
unfoldable pub observe_all : List (Bool × ℕ) → RigReliability → RigReliability
unfolding observe_rig
observe_all [] rig = rig
observe_all ((online, now) ∷ rest) rig = observe_all rest (observe_rig online now rig)

-- The moments do not run back.
abbrev pub IsOrdered : ℕ → List (Bool × ℕ) → Type 0
IsOrdered from [] = Unit {0}
IsOrdered from ((online, now) ∷ rest) = (from ≤ now) × IsOrdered now rest

abbrev pub end_of : ℕ → List (Bool × ℕ) → ℕ
end_of from [] = from
end_of from ((online, now) ∷ rest) = end_of now rest

observe_rig-le :
    (online : Bool) (now : ℕ) (rig : RigReliability)
    → rig.last_seen ≤ now
    → (observe_rig online now rig).uptime ≤ rig.uptime + (now - rig.last_seen)
unfolding observe_rig
observe_rig-le online now rig h = ground arith

end_of-le : (from : ℕ) (seen : List (Bool × ℕ)) → IsOrdered from seen → from ≤ end_of from seen
end_of-le from [] h = omega arith
end_of-le from ((online, now) ∷ rest) h =
    let l = end_of-le now rest h.1 in let l' = h.0 in omega arith

last_seen-observe_rig :
    (online : Bool) (now : ℕ) (rig : RigReliability) → (observe_rig online now rig).last_seen ≡ now
unfolding observe_rig
last_seen-observe_rig online now rig = refl

observe_all-le :
    (seen : List (Bool × ℕ)) (rig : RigReliability)
    → IsOrdered rig.last_seen seen
    → (observe_all seen rig).uptime ≤ rig.uptime + (end_of rig.last_seen seen - rig.last_seen)
unfolding observe_all
observe_all-le [] rig h = omega arith
observe_all-le ((online, now) ∷ rest) rig h =
    let next = observe_rig online now rig in
    let later = observe_all-le rest next (rw (last_seen-observe_rig online now rig) h.1) in
    let here = observe_rig-le online now rig h.0 in
    let l = end_of-le now rest h.1 in
    let l' = h.0 in omega (arith, last_seen-observe_rig online now rig)

-- The time between neighbouring sights, the first of them at `from`, that both found the rig online
-- and are at most two minutes apart.
abbrev pub connected : Bool → ℕ → List (Bool × ℕ) → ℕ
connected was from [] = 0
connected was from ((online, now) ∷ rest) =
    (if was && online && leb 1 from && leb (now - from) 120000 then now - from else 0)
    + connected online now rest

observe_rig-connected :
    (online : Bool) (now : ℕ) (rig : RigReliability)
    → (observe_rig online now rig).uptime
      ≡ rig.uptime + connected rig.last_online rig.last_seen ((online, now) ∷ [])
unfolding observe_rig
observe_rig-connected online now rig = ground arith

observe_all-connected :
    (seen : List (Bool × ℕ)) (rig : RigReliability)
    → (observe_all seen rig).uptime ≡ rig.uptime + connected rig.last_online rig.last_seen seen
unfolding observe_all observe_rig
observe_all-connected [] rig = omega arith
observe_all-connected ((online, now) ∷ rest) rig =
    let here = observe_rig-connected online now rig in
    let later = observe_all-connected rest (observe_rig online now rig) in omega arith

-- Observations add to a rig's uptime exactly the time between neighbouring sights that both found
-- it online and are at most two minutes apart, none before the first sight; and, as long as the
-- clock does not run back, no more than the time since the last sight that was recorded, which is 0
-- where there was none.
pub observe_all_bounded :
    (seen : List (Bool × ℕ)) (rig : RigReliability)
    → IsOrdered rig.last_seen seen
    → ((observe_all seen rig).uptime ≡ rig.uptime + connected rig.last_online rig.last_seen seen)
      × ((observe_all seen rig).uptime ≤ rig.uptime + (end_of rig.last_seen seen - rig.last_seen))
observe_all_bounded seen rig h = (observe_all-connected seen rig, observe_all-le seen rig h)
