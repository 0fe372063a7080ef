-- ===== src/Verify/Challenge.antt =====
-- validator/verify/challenge.py: the verdict on the answers of a rig's cards to a challenge. What
-- each card's command answers is an argument, in the order of the cards; the challenge library and
-- `int(text, 16)` are parameters. The measured values of an answer are only compared with limits,
-- so they are natural numbers of a small unit, or NaN, for which every comparison is false; a
-- negative or an infinite value compares as 0 or as a number above the limits.
use microtensor_compute.Common.{
  ℕ, ◌&&◌, ◌||◌, not, Bool, true, false, List, [], ◌∷◌, Option, none, some, if◌then◌else◌, eqb, ltb,
  is_empty,
}
use microtensor_compute.Common.Text.{Text, codes, text_eq}
use microtensor_compute.Work.Tiers.{Tier, entry, standard, professional, flagship}
use microtensor_compute.Verify.Digest.{reference_digest}
use microtensor_compute.Verify.Failures.{
  FailureClass, Failure, Verdict, ssh_transport, agent_crash, challenge_reject, version_stale,
  other_detail,
}

pub record ChallengeRequest : Type 0 where
  pub seed : ℕ
  pub cipher : ℕ
  pub n : ℕ
  pub rounds : ℕ
  pub benchmark_n : ℕ
  pub iterations : ℕ

-- What `float()` makes of a value of the rig's JSON.
pub data Measure : Type 0 where
  amount : ℕ → Measure
  not_a_number : Measure

-- `measure > limit`
abbrev pub above : Measure → ℕ → Bool
above (amount n) limit = ltb limit n
above not_a_number limit = false

-- `measure < floor`
abbrev pub below : Measure → ℕ → Bool
below (amount n) floor = ltb n floor
below not_a_number floor = false

pub record ChallengeAnswer : Type 0 where
  pub digest : Text
  pub elapsed_ms : Measure
  pub gops : Measure
  pub gbps : Measure
  pub error : Text
  pub library_sha256 : Text

-- Whether the challenge runs on the library, of this checksum, or on the reference.
pub data Prepared : Type 0 where
  on_library : Text → Prepared
  on_reference : Prepared

pub record Settings : Type 0 where
  pub agent_library : Option Text
  pub allow_reference : Bool
  pub solver : Option (ChallengeRequest → Option ℕ)
  pub challenge_max_ms : ℕ

-- none: ChallengeUnavailable is raised.
unfoldable pub prepare : Settings → Option Prepared
prepare settings = elim settings.agent_library [
  | some checksum ↦ some (on_library checksum)
  | none ↦ if settings.allow_reference then some on_reference else none
]

abbrev pub solved_by : Option (ChallengeRequest → Option ℕ) → ChallengeRequest → Option ℕ
solved_by (some solver) request = solver request
solved_by none request =
    some (reference_digest request.seed request.cipher request.n request.rounds)

unfoldable pub expected_digest : Settings → ChallengeRequest → Option ℕ
unfolding reference_digest
expected_digest settings request = solved_by settings.solver request

abbrev pub gops_floor : Tier → ℕ
gops_floor entry = 50
gops_floor standard = 200
gops_floor professional = 400
gops_floor flagship = 1000

abbrev pub gbps_floor : Tier → ℕ
gbps_floor entry = 100
gbps_floor standard = 300
gbps_floor professional = 400
gbps_floor flagship = 1000

abbrev pub tier_or_entry : Option Tier → Tier
tier_or_entry none = entry
tier_or_entry (some tier) = tier

unfoldable pub floors_for : Option Tier → ℕ × ℕ
floors_for tier = (gops_floor (tier_or_entry tier), gbps_floor (tier_or_entry tier))

-- What a card's command brings: SshError, a transport that failed, no answer, or one.
pub data Reply : Type 0 where
  raised : FailureClass → Reply
  unreachable : Text → Reply
  no_answer : Reply
  answered : ChallengeAnswer → Reply

abbrev pub is_stale : Prepared → Text → Bool
is_stale (on_library uploaded) loaded = not (text_eq loaded uploaded)
is_stale on_reference loaded = false

abbrev pub on_card : Prepared → Bool
on_card (on_library uploaded) = true
on_card on_reference = false

abbrev pub equals_digest : Option ℕ → ℕ → Bool
equals_digest none expected = false
equals_digest (some digest) expected = eqb digest expected

abbrev pub failed_as : FailureClass → Text → Option Failure
failed_as kind text = some (record { kind = kind; detail = other_detail text })

pub record Terms : Type 0 where
  pub prepared : Prepared
  pub expected : ℕ
  pub floors : ℕ × ℕ
  pub max_ms : ℕ
  pub read_hex : Text → Option ℕ

-- The turn of the loop for an answer: the failure that it adds.
unfoldable pub answer_failure : Terms → Text → ChallengeAnswer → Option Failure
unfolding text_eq
answer_failure terms uuid answer =
    if not (is_empty answer.error)
    then failed_as challenge_reject answer.error
    else if is_stale terms.prepared answer.library_sha256
    then failed_as version_stale (codes "another library")
    else if not (equals_digest (terms.read_hex answer.digest) terms.expected)
    then failed_as challenge_reject (codes "wrong digest")
    else if above answer.elapsed_ms terms.max_ms
    then failed_as challenge_reject (codes "too slow")
    else if on_card terms.prepared
        && (below answer.gops terms.floors.0 || below answer.gbps terms.floors.1)
    then failed_as challenge_reject (codes "below the floor")
    else none

abbrev pub add_failure : Option Failure → List Failure → List Failure
add_failure none failures = failures
add_failure (some failure) failures = failure ∷ failures

abbrev pub failure_of : FailureClass → Text → Failure
failure_of kind text = record { kind = kind; detail = other_detail text }

-- The loop over the cards: a transport that fails ends it.
unfoldable pub card_failures : Terms → List (Text × Reply) → List Failure
unfolding answer_failure
card_failures terms [] = []
card_failures terms ((uuid, raised kind) ∷ rest) = failure_of kind uuid ∷ []
card_failures terms ((uuid, unreachable error) ∷ rest) = failure_of ssh_transport error ∷ []
card_failures terms ((uuid, no_answer) ∷ rest) =
    failure_of agent_crash (codes "no answer") ∷ card_failures terms rest
card_failures terms ((uuid, answered answer) ∷ rest) =
    add_failure (answer_failure terms uuid answer) (card_failures terms rest)

abbrev pub first_failure : List Failure → Option Failure
first_failure [] = none
first_failure (failure ∷ rest) = some failure

-- The cards that are asked: a rig without known cards is asked once.
abbrev pub targets : List Text → List Text
targets uuids = if is_empty uuids then [] ∷ [] else uuids

abbrev pub with_replies : (Text → Reply) → List Text → List (Text × Reply)
with_replies reply [] = []
with_replies reply (uuid ∷ uuids) = (uuid, reply uuid) ∷ with_replies reply uuids

abbrev pub verdict_on : Terms → (Text → Reply) → List Text → Verdict
verdict_on terms reply uuids = record {
  check = codes "challenge";
  failure = first_failure (card_failures terms (with_replies reply (targets uuids)));
}

abbrev pub judged :
    Settings
    → (Text → Option ℕ)
    → Option Tier
    → (Text → Reply)
    → List Text
    → Option Prepared
    → Option ℕ
    → Option Verdict
judged settings read_hex tier reply uuids none digest = none
judged settings read_hex tier reply uuids (some prepared) none = none
judged settings read_hex tier reply uuids (some prepared) (some digest) = some (
    verdict_on
      (record {
        prepared = prepared;
        expected = digest;
        floors = floors_for tier;
        max_ms = settings.challenge_max_ms;
        read_hex = read_hex;
      })
      reply uuids)

unfoldable pub run_challenge :
    Settings
    → (Text → Option ℕ)
    → ChallengeRequest
    → Option Tier
    → (Text → Reply)
    → List Text
    → Option Verdict
unfolding prepare expected_digest floors_for card_failures
run_challenge settings read_hex request tier reply uuids =
    judged settings read_hex tier reply uuids (prepare settings) (expected_digest settings request)

-- A right answer, said on its own: no error, from the library that was uploaded, with the expected
-- digest, a time that is not above the limit, and, where the library is used, throughputs that are
-- not below the floors of the tier. NaN is neither above nor below.
abbrev pub is_right : Terms → Reply → Bool
is_right terms (answered answer) =
    is_empty answer.error
    && not (is_stale terms.prepared answer.library_sha256)
    && equals_digest (terms.read_hex answer.digest) terms.expected
    && not (above answer.elapsed_ms terms.max_ms)
    && (not (on_card terms.prepared)
        || (not (below answer.gops terms.floors.0) && not (below answer.gbps terms.floors.1)))
is_right terms _ = false
