-- ===== src/Deep/Passing.antt =====
-- A rig passes the deep pass exactly where every check ran and passed.
use microtensor_compute.Common.{
  ◌≡◌, refl, ap, ◌∙◌, inl, inr, ◌&&◌, not, Bool, true, false, List, [], ◌∷◌, ◌++◌, Option, none,
  some, if◌then◌else◌, is_empty, is_some, all_of, arith, Bool-cases, Option-cases,
}
use microtensor_compute.Common.Text.{Text}
use microtensor_compute.Verify.Failures.{Failure, Verdict, passed, failures, worst_of, worst}
use microtensor_compute.Verify.Duplicates.{RosterRig}
use microtensor_compute.Verify.Exclusivity.{Card}
use microtensor_compute.Deep.{
  Rig, Run, Outcome, is_transport, is_transport_failure, ended, inspected, exclusivity_verdict,
  run_exclusivity, unless_transport, run_inspector, challenged, challenge_part, known_uuids,
  seen_uuids, duplicates_verdict, scraped, run_scrape, in_directory, in_session, on_open, pipeline,
  finish, verify, session_verdict,
}

-- Whether a run counts as passed: the challenge could be set, and no verdict failed.
abbrev run_passes : Run → Bool
run_passes run = not run.unavailable && not (is_some (worst run.verdicts))

abbrev pub outcome_passes : Option Outcome → Bool
outcome_passes none = false
outcome_passes (some outcome) = not (is_some outcome.failure)

abbrev pub verdict_passes : Option Verdict → Bool
verdict_passes none = false
verdict_passes (some verdict) = passed verdict

is_some-worst_of : (found : List Failure) → is_some (worst_of found) ≡ not (is_empty found)
is_some-worst_of [] = refl
is_some-worst_of (failure ∷ rest) = refl

is_empty-failures :
    (verdicts : List Verdict) → is_empty (failures verdicts) ≡ all_of passed verdicts
unfolding failures all_of
is_empty-failures [] = refl
is_empty-failures (verdict ∷ rest) = elim (Option-cases verdict.failure) [
  | inl e ↦ rw (e, failures) (is_empty-failures rest)
  | inr (failure, e) ↦ rw (e, failures) refl
]

not-worst : (verdicts : List Verdict) → not (is_some (worst verdicts)) ≡ all_of passed verdicts
unfolding worst
not-worst verdicts =
    ap not (is_some-worst_of (failures verdicts))
    ∙ twice (is_empty (failures verdicts))
    ∙ is_empty-failures verdicts
  where
    twice : (b : Bool) → not (not b) ≡ b
    twice true = refl
    twice false = refl

all_of-append :
    (so_far more : List Verdict)
    → all_of passed (so_far ++ more) ≡ (all_of passed so_far && all_of passed more)
unfolding all_of
all_of-append [] more = refl
all_of-append (verdict ∷ so_far) more = ground (arith, all_of-append so_far more)

all_of_one :
    (so_far : List Verdict) (verdict : Verdict)
    → all_of passed (so_far ++ verdict ∷ []) ≡ (all_of passed so_far && passed verdict)
unfolding all_of
all_of_one so_far verdict = ground (arith, all_of-append so_far (verdict ∷ []))

-- Of what comes after the verdicts so far: it passes where they did and it does.
abbrev PassesWith : (List Verdict → Run) → Bool → Type 0
PassesWith rest passes =
    (so_far : List Verdict) → run_passes (rest so_far) ≡ (all_of passed so_far && passes)

transport_fails :
    (failure : Option Failure) → is_transport_failure failure ≡ true → is_some failure ≡ true
transport_fails none h = absurd (cc h)
transport_fails (some failure) h = refl

both_false : (b : Bool) → false ≡ (b && false)
both_false true = refl
both_false false = refl

module _ (rig : Rig) (roster : List RosterRig) where
  unless_transport-PassesWith :
      (verdict : Verdict) (rest : List Verdict → Run) (passes : Bool)
      → PassesWith rest passes
      → PassesWith
          (λ so_far. unless_transport rig roster verdict so_far rest)
          (passed verdict && passes)
  unless_transport-PassesWith verdict rest passes h so_far =
      elim (Bool-cases (is_transport verdict)) [
        | inl e ↦ rw e (
            not-worst (so_far ++ verdict ∷ [])
            ∙ all_of_one so_far verdict
            ∙ ground (arith, transport_fails verdict.failure e))
        | inr e ↦ rw e (h (so_far ++ verdict ∷ []) ∙ ground (arith, all_of_one so_far verdict))
      ]

  exclusivity-PassesWith :
      PassesWith (run_exclusivity rig roster) (passed (exclusivity_verdict rig roster))
  unfolding run_exclusivity
  exclusivity-PassesWith so_far =
      not-worst (so_far ++ exclusivity_verdict rig roster ∷ [])
      ∙ all_of_one so_far (exclusivity_verdict rig roster)

  abbrev inspector_passes : Bool
  inspector_passes =
      passed (inspected rig.handshake rig.inspection).0 && passed (exclusivity_verdict rig roster)

  inspector-PassesWith : PassesWith (run_inspector rig roster) inspector_passes
  unfolding run_inspector
  inspector-PassesWith =
      unless_transport-PassesWith (inspected rig.handshake rig.inspection).0
        (run_exclusivity rig roster) (passed (exclusivity_verdict rig roster))
        exclusivity-PassesWith

  challenged-PassesWith :
      (answer : Option Verdict)
      → PassesWith (challenged rig roster answer) (verdict_passes answer && inspector_passes)
  challenged-PassesWith none = λ so_far. both_false (all_of passed so_far)
  challenged-PassesWith (some verdict) =
      unless_transport-PassesWith verdict (run_inspector rig roster) inspector_passes
        inspector-PassesWith

  abbrev challenge_passes : List Text → Bool
  challenge_passes uuids = verdict_passes (rig.challenge uuids) && inspector_passes

  challenge_part-PassesWith :
      (uuids : List Text) → PassesWith (challenge_part rig roster uuids) (challenge_passes uuids)
  unfolding challenge_part
  challenge_part-PassesWith uuids = challenged-PassesWith (rig.challenge uuids)

  -- The scrape, and with its data the specs and the duplicates, before the challenge.
  abbrev scraped_passes : Option (List Card) → Bool
  scraped_passes none = passed rig.scrape && challenge_passes (known_uuids rig roster)
  scraped_passes (some cards) =
      passed rig.scrape
      && passed (rig.specs cards)
      && passed (duplicates_verdict rig roster cards)
      && challenge_passes (seen_uuids rig roster cards)

  scraped-PassesWith :
      (cards : Option (List Card)) → PassesWith (scraped rig roster cards) (scraped_passes cards)
  unfolding all_of
  scraped-PassesWith none =
      unless_transport-PassesWith rig.scrape (challenge_part rig roster (known_uuids rig roster))
        (challenge_passes (known_uuids rig roster))
        (challenge_part-PassesWith (known_uuids rig roster))
  scraped-PassesWith (some cards) = λ so_far.
      let three = rig.scrape ∷ rig.specs cards ∷ duplicates_verdict rig roster cards ∷ [] in
      regroup (all_of passed so_far) (passed rig.scrape) (passed (rig.specs cards))
        (passed (duplicates_verdict rig roster cards))
        (challenge_passes (seen_uuids rig roster cards)) (all_of passed (so_far ++ three)) _
        (all_of-append so_far three)
        (challenge_part-PassesWith (seen_uuids rig roster cards) (so_far ++ three))
    where
      regroup :
          (before a b c rest all run : Bool)
          → all ≡ (before && (a && (b && (c && true))))
          → run ≡ (all && rest)
          → run ≡ (before && (a && b && c && rest))
      regroup before a b c rest all run h k = ground (arith, h, k)

  -- Every check that a rig takes passes: version, session, attestation, directory, host, scrape,
  -- with a spec the specs and the duplicates, challenge, inspector and exclusivity.
  abbrev pub every_check : Bool
  every_check =
      passed rig.version
      && not (is_some rig.opened)
      && passed rig.attestation
      && not (is_some rig.made)
      && passed rig.host
      && scraped_passes (if rig.has_spec then rig.seen else none)

  run_scrape-PassesWith :
      PassesWith (run_scrape rig roster) (scraped_passes (if rig.has_spec then rig.seen else none))
  unfolding run_scrape
  run_scrape-PassesWith = scraped-PassesWith (if rig.has_spec then rig.seen else none)

  abbrev session_passes : Bool
  session_passes =
      passed rig.attestation
      && (not (is_some rig.made)
          && (passed rig.host && scraped_passes (if rig.has_spec then rig.seen else none)))

  failing_session :
      (failure : Failure) (so_far : List Verdict) (passes : Bool)
      → run_passes (ended (so_far ++ session_verdict rig roster failure ∷ []))
        ≡ (all_of passed so_far && (false && passes))
  failing_session failure so_far passes =
      not-worst (so_far ++ session_verdict rig roster failure ∷ [])
      ∙ all_of_one so_far (session_verdict rig roster failure)

  in_directory-PassesWith :
      (crash : Option Failure)
      → PassesWith (in_directory rig roster crash) (
          not (is_some crash)
          && (passed rig.host && scraped_passes (if rig.has_spec then rig.seen else none)))
  in_directory-PassesWith (some crash) = λ so_far. failing_session crash so_far false
  in_directory-PassesWith none =
      unless_transport-PassesWith rig.host (run_scrape rig roster) _ run_scrape-PassesWith

  in_session-PassesWith : PassesWith (in_session rig roster) session_passes
  unfolding in_session
  in_session-PassesWith so_far =
      in_directory-PassesWith rig.made (so_far ++ rig.attestation ∷ [])
      ∙ ground (arith, all_of_one so_far rig.attestation)

  on_open-PassesWith :
      (failure : Option Failure)
      → PassesWith (on_open rig roster failure) (not (is_some failure) && session_passes)
  on_open-PassesWith (some failure) = λ so_far. failing_session failure so_far session_passes
  on_open-PassesWith none = in_session-PassesWith

  pipeline_passes : run_passes (pipeline rig roster) ≡ every_check
  unfolding pipeline all_of
  pipeline_passes = elim (Bool-cases (is_some rig.version.failure)) [
    | inl e ↦ rw (e, pipeline) (not-worst (rig.version ∷ []) ∙ ground (arith, e))
    | inr e ↦
        rw (e, pipeline) (on_open-PassesWith rig.opened (rig.version ∷ []) ∙ ground (arith, e))
  ]

  -- A rig is reported as passed exactly where every check was made and passed: the version, the
  -- session, the attestation, the directory, the host, the scrape, where it gave a spec the specs
  -- and the duplicates, the challenge, the inspector and the exclusivity.
  pub verify-every_check : outcome_passes (verify rig roster) ≡ every_check
  unfolding verify finish
  verify-every_check = reported (pipeline rig roster) ∙ pipeline_passes
    where
      reported :
          (run : Run)
          → outcome_passes (if run.unavailable then none else some (finish run)) ≡ run_passes run
      reported run = elim (Bool-cases run.unavailable) [ inl e ↦ rw e refl | inr e ↦ rw e refl ]
