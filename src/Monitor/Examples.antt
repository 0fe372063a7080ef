-- ===== src/Monitor/Examples.antt =====
-- A rig that is seen four times, and three probes of it that fail.
use microtensor_compute.Common.{
  ℕ, ◌+◌, ◌-◌, ◌≤◌, ◌≡◌, refl, Bool, true, false, List, [], ◌∷◌, Option, none, some, arith,
}
use microtensor_compute.Common.Text.{codes, text_instance}
use microtensor_compute.Monitor.Uptime.{RigReliability, connected, observe_all, observe_all_bounded}
use microtensor_compute.Monitor.Express.{Card, Rig, ExpressLane, probe_all, failed_ticks}
use microtensor_compute.Monitor.Wedge.{Sample, failed, rows, sweep, IsSwept, sweep-IsSwept}
use microtensor_compute.Monitor.Express.Laws.{streak, failed_ticks-probe_all}

abbrev seen_once : RigReliability
seen_once = record {
  uptime = 5000;
  completed_jobs = 1;
  failed_jobs = 0;
  first_seen = 900;
  last_seen = 1000;
  last_online = true;
}

abbrev sights : List (Bool × ℕ)
sights = (true, 61000) ∷ (true, 500000) ∷ (false, 510000) ∷ (true, 511000) ∷ []

observe_all_bounded_example :
    ((observe_all sights seen_once).uptime ≡ 5000 + connected true 1000 sights)
    × ((observe_all sights seen_once).uptime ≤ 5000 + (511000 - 1000))
observe_all_bounded_example =
    observe_all_bounded sights seen_once
      (omega arith, (omega arith, (omega arith, (omega arith, tt))))

abbrev rig : Rig
rig = record { id = codes "r1"; hotkey = codes "5F"; jobs_running = 1 }

abbrev lane : ExpressLane
lane = record { ledger = []; unreachable = (codes "r1", 2) ∷ []; early_due = []; signals = [] }

abbrev probes : List (Option (List Card) × ℕ)
probes = (none, 10) ∷ (some [], 20) ∷ (none, 30) ∷ []

failed_ticks-probe_all_example :
    failed_ticks (codes "r1") (probe_all rig probes lane)
    ≡ streak (failed_ticks (codes "r1") lane) probes
failed_ticks-probe_all_example = failed_ticks-probe_all rig probes lane

abbrev no_answer : Option (List Card)
no_answer = none

abbrev idle_card : Sample
idle_card = rows (record { uuid = codes "GPU-1"; utilisation = 100; memory = 2 } ∷ [])

sweep-IsSwept_example : IsSwept idle_card idle_card (rows []) (sweep idle_card idle_card (rows []))
sweep-IsSwept_example = sweep-IsSwept idle_card idle_card (rows [])

-- The last query failed, and the card counts as cured.
sweep-failed : (sweep idle_card idle_card failed).cured ≡ codes "GPU-1" ∷ []
unfolding sweep
sweep-failed = refl
