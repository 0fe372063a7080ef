-- ===== src/Deep.antt =====
-- validator/schedule/deep.py: the deep pass over a rig. The checks that read the rig are arguments,
-- by what they answer; those of Verify are called as the source calls them. The detail of an
-- outcome, which is only reported, is left out.
pub mod Passing
pub mod Due
pub mod Choosing
pub mod Examples
use microtensor_compute.Common.{
  ℕ, ◌≡◌, ◌&&◌, ◌||◌, not, Bool, true, false, List, [], ◌∷◌, ◌++◌, Option, none, some, map,
  if◌then◌else◌, is_empty, is_some, contains, keep_if, eqb,
}
use microtensor_compute.Common.Text.{Text, codes, text_eq, text_instance}
use microtensor_compute.Verify.Failures.{
  FailureClass, Failure, Verdict, ssh_transport, agent_crash, other_detail, class_index, worst,
}
use microtensor_compute.Verify.Duplicates.{RosterRig}
use microtensor_compute.Verify.Duplicates
use microtensor_compute.Verify.Exclusivity.{Card, PlacedJob, OwnContainer}
use microtensor_compute.Verify.Exclusivity

-- What the inspector's command brings: SshError, no result, or one.
pub data Inspection : Type 0 where
  raised : Failure → Inspection
  no_result : Option Failure → Inspection
  result : Text → List ℕ → Inspection

-- The rig and what it answers: `challenge` is none where ChallengeUnavailable is raised, `opened`
-- the AgentError of the session and `made` the crash of making the session's directory. The scrape
-- may have its data without a spec.
pub record Rig : Type 0 where
  pub id : Text
  pub gpus : List Text
  pub jobs : List PlacedJob
  pub version : Verdict
  pub opened : Option Failure
  pub attestation : Verdict
  pub made : Option Failure
  pub host : Verdict
  pub scrape : Verdict
  pub seen : Option (List Card)
  pub has_spec : Bool
  pub specs : List Card → Verdict
  pub challenge : List Text → Option Verdict
  pub inspection : Inspection
  pub handshake : Text
  pub containers : List OwnContainer

abbrev pub is_transport_class : FailureClass → Bool
is_transport_class ssh_transport = true
is_transport_class _ = false

abbrev pub is_transport_failure : Option Failure → Bool
is_transport_failure none = false
is_transport_failure (some failure) = is_transport_class failure.kind

abbrev pub is_transport : Verdict → Bool
is_transport verdict = is_transport_failure verdict.failure

-- A run of the checks: the verdicts in their order, whether the rig was swept for wedged cards, and
-- whether the challenge could not be set.
pub record Run : Type 0 where
  pub verdicts : List Verdict
  pub swept : Bool
  pub unavailable : Bool

abbrev pub ended : List Verdict → Run
ended verdicts = record { verdicts = verdicts; swept = false; unavailable = false }

abbrev pub inspector_verdict : Option Failure → Verdict
inspector_verdict failure = record { check = codes "inspector"; failure = failure }

abbrev pub crashed : Text → Option Failure
crashed text = some (record { kind = agent_crash; detail = other_detail text })

abbrev pub crash_or : Option Failure → Text → Option Failure
crash_or none text = crashed text
crash_or (some failure) text = some failure

-- The verdict of the inspector, and the processes that it saw where its handshake is right.
abbrev pub inspected : Text → Inspection → Verdict × Option (List ℕ)
inspected handshake (raised failure) = (inspector_verdict (some failure), none)
inspected handshake (no_result crash) =
    (inspector_verdict (crash_or crash (codes "no result")), none)
inspected handshake (result reply pids) =
    if text_eq handshake reply
    then (inspector_verdict none, some pids)
    else (inspector_verdict (crashed (codes "handshake")), none)

abbrev pub cards_of : Option (List Card) → List Card
cards_of none = []
cards_of (some cards) = cards

module _ (rig : Rig) (roster : List RosterRig) where
  abbrev pub exclusivity_verdict : Verdict
  exclusivity_verdict =
      (Exclusivity.check (cards_of rig.seen) rig.jobs rig.containers
        (inspected rig.handshake rig.inspection).1).0

  unfoldable pub run_exclusivity : List Verdict → Run
  unfolding worst text_eq
  run_exclusivity so_far =
      let verdicts = so_far ++ exclusivity_verdict ∷ [] in
      record { verdicts = verdicts; swept = not (is_some (worst verdicts)); unavailable = false }

  abbrev pub unless_transport : Verdict → List Verdict → (List Verdict → Run) → Run
  unless_transport verdict so_far rest =
      if is_transport verdict then ended (so_far ++ verdict ∷ []) else rest (so_far ++ verdict ∷ [])

  unfoldable pub run_inspector : List Verdict → Run
  unfolding run_exclusivity
  run_inspector so_far =
      unless_transport (inspected rig.handshake rig.inspection).0 so_far run_exclusivity

  abbrev pub challenged : Option Verdict → List Verdict → Run
  challenged none so_far = record { verdicts = so_far; swept = false; unavailable = true }
  challenged (some verdict) so_far = unless_transport verdict so_far run_inspector

  unfoldable pub challenge_part : List Text → List Verdict → Run
  unfolding run_inspector
  challenge_part uuids so_far = challenged (rig.challenge uuids) so_far

  -- The cards that are asked: those of the rig that have a uuid, and of them those that the scrape
  -- saw, if any.
  abbrev pub known_uuids : List Text
  known_uuids = keep_if (λ uuid. not (is_empty uuid)) rig.gpus

  abbrev pub or_else : List Text → List Text → List Text
  or_else found others = if is_empty found then others else found

  unfoldable pub seen_uuids : List Card → List Text
  unfolding keep_if contains text_eq
  seen_uuids cards =
      let seen = keep_if (λ uuid. not (is_empty uuid)) (map (λ card. card.uuid) cards) in
      or_else (keep_if (λ uuid. contains uuid seen) known_uuids) known_uuids

  abbrev pub duplicates_verdict : List Card → Verdict
  duplicates_verdict cards = Duplicates.check (map (λ card. card.uuid) cards) rig.id roster

  abbrev pub scraped : Option (List Card) → List Verdict → Run
  scraped (some cards) so_far =
      challenge_part (seen_uuids cards)
        (so_far ++ rig.scrape ∷ rig.specs cards ∷ duplicates_verdict cards ∷ [])
  scraped none so_far = unless_transport rig.scrape so_far (challenge_part known_uuids)

  unfoldable pub run_scrape : List Verdict → Run
  unfolding challenge_part seen_uuids keep_if
  run_scrape so_far = scraped (if rig.has_spec then rig.seen else none) so_far

  abbrev pub session_verdict : Failure → Verdict
  session_verdict failure = record { check = codes "session"; failure = some failure }

  abbrev pub in_directory : Option Failure → List Verdict → Run
  in_directory (some crash) so_far = ended (so_far ++ session_verdict crash ∷ [])
  in_directory none so_far = unless_transport rig.host so_far run_scrape

  -- The directory is removed at the end, on every path.
  unfoldable pub in_session : List Verdict → Run
  unfolding run_scrape
  in_session so_far = in_directory rig.made (so_far ++ rig.attestation ∷ [])

  abbrev pub on_open : Option Failure → List Verdict → Run
  on_open (some failure) so_far = ended (so_far ++ session_verdict failure ∷ [])
  on_open none so_far = in_session so_far

  unfoldable pub pipeline : Run
  unfolding in_session
  pipeline =
      if is_some rig.version.failure
      then ended (rig.version ∷ [])
      else on_open rig.opened (rig.version ∷ [])

pub record Outcome : Type 0 where
  pub verdicts : List Verdict
  pub failure : Option Failure

-- `verdict.failure is self.failure`: the worst failure is the first of its class, so this is the
-- first verdict with a failure of that class.
abbrev pub is_of_class : FailureClass → Option Failure → Bool
is_of_class kind none = false
is_of_class kind (some failure) = eqb (class_index failure.kind) (class_index kind)

unfoldable pub check_failing : FailureClass → List Verdict → Text
check_failing kind [] = []
check_failing kind (verdict ∷ rest) =
    if is_of_class kind verdict.failure then verdict.check else check_failing kind rest

unfoldable pub failing_check : Outcome → Text
unfolding check_failing
failing_check outcome = elim outcome.failure [
  | none ↦ []
  | some failure ↦ check_failing failure.kind outcome.verdicts
]

unfoldable pub finish : Run → Outcome
unfolding worst
finish run = record { verdicts = run.verdicts; failure = worst run.verdicts }

-- none where ChallengeUnavailable was raised: nothing is reported then.
unfoldable pub verify : Rig → List RosterRig → Option Outcome
unfolding pipeline finish
verify rig roster =
    let run = pipeline rig roster in if run.unavailable then none else some (finish run)
