-- ===== src/Deep/Examples.antt =====
-- A rig that passes every check but the challenge, and a pass over two rigs.
use microtensor_compute.Common.{◌≡◌, true, List, [], ◌∷◌, none, some}
use microtensor_compute.Common.Text.{Text, codes}
use microtensor_compute.Verify.Failures.{Verdict, challenge_reject, other_detail}
use microtensor_compute.Deep.{Rig, result, verify}
use microtensor_compute.Deep.Passing.{outcome_passes, every_check, verify-every_check}
use microtensor_compute.Deep.Due.{DueRig, due_at_first, due_rigs}
use microtensor_compute.Deep.Choosing.{IsDue, due_rigs-IsDue}

abbrev fine : Text → Verdict
fine check = record { check = check; failure = none }

abbrev slow_card : Rig
slow_card = record {
  id = codes "r1";
  gpus = codes "g1" ∷ [];
  jobs = [];
  version = fine (codes "version");
  opened = none;
  attestation = fine (codes "attestation");
  made = none;
  host = fine (codes "host");
  scrape = fine (codes "scrape");
  seen = some (record { uuid = codes "g1"; processes = [] } ∷ []);
  has_spec = true;
  specs = λ cards. fine (codes "specs");
  challenge = λ uuids. some (record {
    check = codes "challenge";
    failure = some (record { kind = challenge_reject; detail = other_detail (codes "slow") });
  });
  inspection = result (codes "hello") [];
  handshake = codes "hello";
  containers = [];
}

verify-every_check_example : outcome_passes (verify slow_card []) ≡ every_check slow_card []
verify-every_check_example = verify-every_check slow_card []

abbrev due_rig : Text → DueRig
due_rig id = record {
  id = id;
  state = codes "active";
  online = true;
  last_pass = codes "yesterday";
}

abbrev roster : List DueRig
roster = due_rig (codes "r1") ∷ due_rig (codes "r2") ∷ []

due_rigs-IsDue_example :
    IsDue
      (codes "r2" ∷ [])
      roster
      (due_at_first (λ text. some 5) 0 60 50 roster (due_rig (codes "r1") ∷ []))
      (due_rigs (λ text. some 5) 0 60 50 roster (due_rig (codes "r1") ∷ []) (codes "r2" ∷ []))
due_rigs-IsDue_example =
    due_rigs-IsDue (λ text. some 5) 0 60 50 roster (due_rig (codes "r1") ∷ []) (codes "r2" ∷ [])
