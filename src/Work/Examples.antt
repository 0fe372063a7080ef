-- ===== src/Work/Examples.antt =====
-- A rig that drains in its second round, and a card whose limit is capped and put back.
use microtensor_compute.Common.{ℕ, ◌≡◌, ◌⊎◌, refl, true, List, [], ◌∷◌, none, some, lookup, any_of}
use microtensor_compute.Common.Text.{codes, text_eq, text_instance}
use microtensor_compute.Work.Drain.{Round, drain, IsDone, drain-IsDone}
use microtensor_compute.Work.Power.{PowerRecords, Smi, apply_caps, original-apply_caps}

abbrev rounds : List Round
rounds =
    record { jobs = some (codes "j1" ∷ []); answered_state = some (codes "running"); elapsed = 0 }
    ∷ record { jobs = some []; answered_state = none; elapsed = 1800 }
    ∷ []

drain-IsDone_example :
    IsDone (some (7, codes "queued")) 1800 rounds (drain (some (7, codes "queued")) 1800 rounds)
drain-IsDone_example = drain-IsDone (some (7, codes "queued")) 1800 rounds (unfold any_of in refl)

-- One card, whose world is its limit.
abbrev card : Smi ℕ
card = record {
  read_state =
      λ uuid limit. some (record { limit_w = limit; default_w = 300; min_w = 100; max_w = 350 });
  write_limit = λ uuid watts limit. (true, watts);
}

abbrev records : PowerRecords
records = record { gpus = (codes "g1", 300) ∷ []; jobs = [] }

recorded : lookup (codes "g1") records.gpus ≡ some 300
unfolding lookup text_eq
recorded = refl

original-apply_caps_example :
    (lookup
        (codes "g1")
        (apply_caps card (codes "j1") ((codes "g1", 200) ∷ []) (records, 280)).1.0.gpus
      ≡ some 300)
    ⊎ (lookup
          (codes "g1")
          (apply_caps card (codes "j1") ((codes "g1", 200) ∷ []) (records, 280)).1.0.gpus
        ≡ none)
original-apply_caps_example =
    original-apply_caps card (codes "j1") (codes "g1") 300 ((codes "g1", 200) ∷ []) records 280
      recorded
