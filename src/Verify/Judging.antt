-- ===== src/Verify/Judging.antt =====
-- The verdict of Verify.Challenge, by what each card answers.
use microtensor_compute.Common.{ℕ, ◌≡◌, Bool, List, Option, none, some, all_of}
use microtensor_compute.Common.Text.{Text}
use microtensor_compute.Work.Tiers.{Tier}
use microtensor_compute.Verify.Failures.{Verdict, passed}
use microtensor_compute.Verify.Challenge.{
  Prepared, Reply, Settings, Terms, floors_for, is_right, targets,
}

abbrev all_right : Terms → List (Text × Reply) → Bool
all_right terms = all_of (λ pair. is_right terms pair.1)

-- What a run of the challenge comes to: nothing where no library is there and the reference is not
-- allowed, or the library fails to solve it; otherwise a verdict, which passes where every card is
-- right.
abbrev pub IsJudged :
    Settings
    → (Text → Option ℕ)
    → Option Tier
    → (Text → Reply)
    → List Text
    → Option Prepared
    → Option ℕ
    → Option Verdict
    → Type 0
IsJudged settings read_hex tier reply uuids (some prepared) (some digest) (some verdict) =
    passed verdict
    ≡ all_of
        (λ uuid.
          is_right
            (record {
              prepared = prepared;
              expected = digest;
              floors = floors_for tier;
              max_ms = settings.challenge_max_ms;
              read_hex = read_hex;
            })
            (reply uuid))
        (targets uuids)
IsJudged settings read_hex tier reply uuids (some prepared) (some digest) none = ⊥
IsJudged settings read_hex tier reply uuids (some prepared) none verdict = verdict ≡ none
IsJudged settings read_hex tier reply uuids none digest verdict = verdict ≡ none
