-- ===== src/Work/Placement/Examples.antt =====
-- Two rigs: one with a free card and one card that mines, one with a card that a customer uses.
use microtensor_compute.Common.{ℕ, true, false, List, [], ◌∷◌, Option, some, if◌then◌else◌}
use microtensor_compute.Common.Text.{Text, codes, text_eq, text_instance}
use microtensor_compute.Work.Tiers.{WorkKind}
use microtensor_compute.Work.Rigs.{JobRecord, Rig, KindEntry}
use microtensor_compute.Work.Placement.{Placed, choose}
use microtensor_compute.Work.Placement.Choosing.{Chooses, choose-Chooses}

abbrev every_kind : WorkKind → Option KindEntry
every_kind kind = some (record { eligible = true; reasons = [] })

abbrev rig : Text → List Text → Rig
rig id gpus = record {
  id = id;
  state = codes "active";
  online = true;
  draining = false;
  rental_opt_out = false;
  kinds = every_kind;
  gpus = gpus;
  reliability = 90;
}

abbrev roster : List Rig
roster = rig (codes "r1") (codes "g3" ∷ []) ∷ rig (codes "r2") (codes "g1" ∷ codes "g2" ∷ []) ∷ []

abbrev job : Text → Text → Text → JobRecord
job id kind gpu = record { job_id = id; kind = kind; gpu_uuid = gpu }

abbrev jobs_of : Text → List JobRecord
jobs_of id =
    if text_eq id (codes "r1")
    then job (codes "j1") (codes "inference") (codes "g3") ∷ []
    else job (codes "j2") (codes "mining") (codes "g2") ∷ []

abbrev uptime : Text → ℕ
uptime id = 0

abbrev on_r2 : Placed
on_r2 = record {
  rig_id = codes "r2";
  gpu_uuids = codes "g1" ∷ codes "g2" ∷ [];
  displaced = codes "j2" ∷ [];
}

choose-Chooses_example :
    Chooses
      (codes "rental")
      2
      roster
      uptime
      jobs_of
      false
      (choose (codes "rental") 2 roster uptime jobs_of false)
choose-Chooses_example = choose-Chooses (codes "rental") 2 roster uptime jobs_of false
