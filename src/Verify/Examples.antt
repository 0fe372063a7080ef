-- ===== src/Verify/Examples.antt =====
-- Verdicts, a card that is enrolled twice, and a process that the pool did not place.
use microtensor_compute.Common.{
  ◌+◌, ◌≡◌, ◌&&◌, not, false, if◌then◌else◌, List, [], ◌∷◌, none, some, any_of, length, is_empty,
}
use microtensor_compute.Common.Text.{Text, codes}
use microtensor_compute.Verify.Digest.{reference_digest}
use microtensor_compute.Verify.Digesting.{digest_by_rows, reference_digest-digest_by_rows}
use microtensor_compute.Verify.Challenge.{
  amount, ChallengeRequest, ChallengeAnswer, Settings, Reply, answered, no_answer,
}
use microtensor_compute.Verify.Failures.{
  Verdict, version_stale, spec_mismatch, other_detail, worst, IsWorst, worst-IsWorst, passed,
}
use microtensor_compute.Verify.Duplicates.{RosterRig, enrolled_elsewhere, passed-check}
use microtensor_compute.Verify.Duplicates as Duplicates
use microtensor_compute.Verify.Exclusivity.{OwnContainer, Process, Card, PlacedJob, tally}
use microtensor_compute.Verify.Exclusivity as Exclusivity
use microtensor_compute.Verify.Exclusivity.Foreign.{every_authorised, process_count, check-tally}

abbrev failing : Text → Verdict
failing name = record {
  check = name;
  failure = some (record { kind = version_stale; detail = other_detail name });
}

abbrev verdicts : List Verdict
verdicts =
    failing (codes "version")
    ∷ record { check = codes "duplicates"; failure = none }
    ∷ record {
      check = codes "specs";
      failure = some (record { kind = spec_mismatch; detail = other_detail [] });
    }
    ∷ []

worst-IsWorst_example : IsWorst verdicts (worst verdicts)
worst-IsWorst_example = worst-IsWorst verdicts

abbrev rig : Text → Text → RosterRig
rig id gpu = record { id = id; state = codes "active"; gpus = gpu ∷ [] }

abbrev roster : List RosterRig
roster = rig (codes "r1") (codes "g1") ∷ rig (codes "r2") (codes "g2") ∷ []

passed-check_example :
    passed (Duplicates.check (codes "g2" ∷ []) (codes "r1") roster)
    ≡ not (
        any_of
          (λ uuid. not (is_empty uuid) && enrolled_elsewhere (codes "r1") roster uuid)
          (codes "g2" ∷ []))
passed-check_example = passed-check (codes "g2" ∷ []) (codes "r1") roster

abbrev cards : List Card
cards =
    record {
      uuid = codes "g1";
      processes =
          record { pid = 10; container = [] } ∷ record { pid = 11; container = codes "abc" } ∷ [];
    }
    ∷ []

abbrev jobs : List PlacedJob
jobs = record { job_id = codes "j"; pid = 10; container = [] } ∷ []

check-tally_example :
    (passed (Exclusivity.check cards jobs [] none).0 ≡ every_authorised cards jobs [])
    × ((tally cards jobs []).authorised + length (tally cards jobs []).foreign
        ≡ process_count cards)
check-tally_example = check-tally cards jobs [] none

reference_digest-digest_by_rows_example : reference_digest 7 9 2 1 ≡ digest_by_rows 7 9 2 1
reference_digest-digest_by_rows_example = reference_digest-digest_by_rows 7 9 2 1

abbrev settings : Settings
settings = record {
  agent_library = some (codes "ab12");
  allow_reference = false;
  solver = none;
  challenge_max_ms = 500;
}

abbrev request : ChallengeRequest
request = record { seed = 7; cipher = 9; n = 2; rounds = 1; benchmark_n = 2048; iterations = 32 }

abbrev quick : ChallengeAnswer
quick = record {
  digest = codes "0f";
  elapsed_ms = amount 20;
  gops = amount 60;
  gbps = amount 120;
  error = [];
  library_sha256 = codes "ab12";
}

abbrev replies : Text → Reply
replies uuid = if is_empty uuid then no_answer else answered quick
