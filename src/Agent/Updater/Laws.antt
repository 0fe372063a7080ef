-- ===== src/Agent/Updater/Laws.antt =====
-- What an applied update rests on, what the environment file then says, and the delays.
use microtensor_compute.Common.{
  ℕ, ◌+◌, ◌≤◌, ◌≡◌, ◌≢◌, refl, ap, inl, inr, ◌⊎◌, max, ◌||◌, not, Bool, true, false, List, [], ◌∷◌,
  ◌++◌, none, some, arith, if◌then◌else◌, ltb, is_empty, contains, keep_if, Bool-cases,
  Option-cases,
}
use microtensor_compute.Common.Text.{Text, text_eq, text_instance, text_eq_iff, starts_with}
use microtensor_compute.Agent.Updater.{
  Release, release_message, well_formed_digest, Problem, distance, Scheme, verify_given, env_key,
  rewrite_env, Effect, pull, inspect, write_env, start_helper, carries, pull_and_verify, restart,
  Docker, Outcome, refused, already_running, pull_failed, restart_failed, applied, apply_release,
  check_once, turn,
}

-- A release that may run: signed by one of the validators, in time, with a well formed digest.
pub record IsAuthorised (verify : Scheme) (r : Release) (validators : List Text) (now : ℕ)
    : Type 0 where
  pub digest : well_formed_digest r.digest ≡ true
  pub signer : contains r.validator validators ≡ true
  pub timely : distance now r.timestamp ≤ 600
  pub signed : verify r.validator (release_message r.digest r.timestamp) r.signature ≡ true

all_guards :
    (a b c d : Bool) (p q r s : Problem)
    → (if not a
        then some p
        else if b
        then some q
        else if c
        then some r
        else if not d
        then some s
        else none)
      ≡ none
    → (a ≡ true) × (b ≡ false) × (c ≡ false) × (d ≡ true)
all_guards true false false true p q r s h = (refl, refl, refl, refl)
all_guards true false false false p q r s h = cc
all_guards true false true d p q r s h = cc
all_guards true true c d p q r s h = cc
all_guards false b c d p q r s h = cc

known : (a b : Bool) → a || not b ≡ false → b ≡ true
known a b h = ground arith

near : (n : ℕ) → ltb 600 n ≡ false → n ≤ 600
near n h = ground arith

verify_given-IsAuthorised :
    (verify : Scheme) (r : Release) (validators : List Text) (now : ℕ)
    → verify_given verify r validators now ≡ none
    → IsAuthorised verify r validators now
unfolding verify_given
verify_given-IsAuthorised verify r validators now h =
    let (a, b, c, d) =
      all_guards (well_formed_digest r.digest)
        (is_empty r.validator || not (contains r.validator validators))
        (ltb 600 (distance now r.timestamp))
        (verify r.validator (release_message r.digest r.timestamp) r.signature) _ _ _ _ h in
    record {
      digest = a;
      signer = known (is_empty r.validator) _ b;
      timely = near (distance now r.timestamp) c;
      signed = d;
    }

-- What `check_once` answers on a release that is there, and all that it did before.
abbrev pub Answers : Scheme → Docker → Release → List Text → ℕ → Outcome × List Effect → Type 0
Answers verify docker r validators now (refused problem, effects) =
    (verify_given verify r validators now ≡ some problem) × (effects ≡ [])
Answers verify docker r validators now (already_running, effects) =
    IsAuthorised verify r validators now × (docker.running ≡ r.digest) × (effects ≡ [])
Answers verify docker r validators now (pull_failed, effects) =
    IsAuthorised verify r validators now
    × (docker.running ≢ r.digest)
    × (((docker.pulls r.digest ≡ false) × (effects ≡ pull r.digest ∷ []))
        ⊎ ((carries (docker.digests r.digest) r.digest ≡ false)
            × (effects ≡ pull r.digest ∷ inspect r.digest ∷ [])))
Answers verify docker r validators now (restart_failed, effects) =
    IsAuthorised verify r validators now
    × (docker.running ≢ r.digest)
    × (carries (docker.digests r.digest) r.digest ≡ true)
    × ((effects ≡ pull r.digest ∷ inspect r.digest ∷ [])
        ⊎ ((docker.helper_succeeds r.digest ≡ false)
            × (effects
                ≡ pull r.digest
                  ∷ inspect r.digest
                  ∷ write_env r.digest
                  ∷ start_helper r.digest
                  ∷ [])))
Answers verify docker r validators now (applied digest, effects) =
    IsAuthorised verify r validators now
    × (digest ≡ r.digest)
    × (docker.running ≢ digest)
    × (carries (docker.digests digest) digest ≡ true)
    × (docker.helper_succeeds digest ≡ true)
    × (effects ≡ pull digest ∷ inspect digest ∷ write_env digest ∷ start_helper digest ∷ [])

not_equal : (a b : Text) → text_eq a b ≡ false → a ≢ b
not_equal a b h e = ground (arith, text_eq_iff a b)

restart-Answers :
    (verify : Scheme) (docker : Docker) (r : Release) (validators : List Text) (now : ℕ)
    → IsAuthorised verify r validators now
    → docker.running ≢ r.digest
    → docker.pulls r.digest ≡ true
    → carries (docker.digests r.digest) r.digest ≡ true
    → text_eq docker.running r.digest ≡ false
    → Answers verify docker r validators now (apply_release docker r)
unfolding apply_release pull_and_verify restart
restart-Answers verify docker r validators now a d p c e =
    elim (Bool-cases docker.has_compose_file) [
      | inr f ↦ rw (e, p, c, f) (a, d, c, inl refl)
      | inl f ↦ elim (Bool-cases docker.env_writable) [
        | inr w ↦ rw (e, p, c, f, w) (a, d, c, inl refl)
        | inl w ↦ elim (Bool-cases (docker.helper_succeeds r.digest)) [
          | inr s ↦ rw (e, p, c, f, w, s) (a, d, c, inr (s, refl))
          | inl s ↦ rw (e, p, c, f, w, s) (a, refl, d, c, s, refl)
        ]
      ]
    ]

apply_release-Answers :
    (verify : Scheme) (docker : Docker) (r : Release) (validators : List Text) (now : ℕ)
    → IsAuthorised verify r validators now
    → Answers verify docker r validators now (apply_release docker r)
unfolding apply_release pull_and_verify
apply_release-Answers verify docker r validators now a =
    elim (Bool-cases (text_eq docker.running r.digest)) [
      | inl e ↦ rw e (a, (text_eq_iff docker.running r.digest).0 e, refl)
      | inr e ↦
          let d = not_equal docker.running r.digest e in
          elim (Bool-cases (docker.pulls r.digest)) [
            | inr p ↦ rw (e, p) (a, d, inl (p, refl))
            | inl p ↦ elim (Bool-cases (carries (docker.digests r.digest) r.digest)) [
              | inr c ↦ rw (e, p, c) (a, d, inr (c, refl))
              | inl c ↦ restart-Answers verify docker r validators now a d p c e
            ]
          ]
    ]

-- On a release that is there nothing is done unless a known validator signed it, within 600 seconds
-- of the timestamp, with a well formed digest, and it does not run yet. Then its image is pulled
-- and inspected; the environment file is written and the agent is restarted, in this order, only
-- after the inspection showed that digest on the image.
pub check_once-Answers :
    (verify : Scheme) (docker : Docker) (r : Release) (validators : List Text) (now : ℕ)
    → Answers verify docker r validators now (check_once verify docker (some r) validators now)
unfolding check_once
check_once-Answers verify docker r validators now =
    elim (Option-cases (verify_given verify r validators now)) [
      | inr (problem, e) ↦ rw (e, check_once) (e, refl)
      | inl e ↦
          rw (e, check_once)
            (apply_release-Answers verify docker r validators now
              (verify_given-IsAuthorised verify r validators now e))
    ]

abbrev pub names_image : Text → Bool
names_image line = starts_with env_key line

starts_with-append : (p cs : Text) → starts_with p (p ++ cs) ≡ true
unfolding starts_with
starts_with-append [] cs = refl
starts_with-append (c ∷ p) cs = ground (arith, starts_with-append p cs)

keep_if-others :
    (lines : List Text) (line : Text)
    → names_image line ≡ true
    → keep_if names_image (keep_if (λ l. not (names_image l)) lines ++ line ∷ []) ≡ line ∷ []
unfolding keep_if
keep_if-others [] line h = rw h refl
keep_if-others (l ∷ ls) line h = elim (Bool-cases (names_image l)) [
  | inl e ↦ rw e (keep_if-others ls line h)
  | inr e ↦ rw (e, e) (keep_if-others ls line h)
]

keep_if_same :
    (lines : List Text) (line : Text)
    → names_image line ≡ true
    → keep_if (λ l. not (names_image l)) (keep_if (λ l. not (names_image l)) lines ++ line ∷ [])
      ≡ keep_if (λ l. not (names_image l)) lines
unfolding keep_if
keep_if_same [] line h = rw h refl
keep_if_same (l ∷ ls) line h = elim (Bool-cases (names_image l)) [
  | inl e ↦ rw e (keep_if_same ls line h)
  | inr e ↦ rw (e, e) (ap (◌∷◌ l) (keep_if_same ls line h))
]

-- After the file is rewritten it names one image, the new digest, and its other lines are what they
-- were, in their order.
pub rewrite_env_lem :
    (lines : List Text) (digest : Text)
    → (keep_if names_image (rewrite_env lines digest) ≡ (env_key ++ digest) ∷ [])
      × (keep_if (λ l. not (names_image l)) (rewrite_env lines digest)
          ≡ keep_if (λ l. not (names_image l)) lines)
unfolding rewrite_env
rewrite_env_lem lines digest = (
  keep_if-others lines (env_key ++ digest) (starts_with-append env_key digest),
  keep_if_same lines (env_key ++ digest) (starts_with-append env_key digest),
)

-- The loop never waits for more than an hour, or than the configured time where that is longer; and
-- the failures in a row are counted from the last turn that did not fail.
pub turn-le :
    (update_seconds : ℕ) (outcome : Outcome) (failures : ℕ)
    → ((turn update_seconds outcome failures).1 ≤ max update_seconds 3600)
      × (((turn update_seconds outcome failures).0 ≡ 0)
          ⊎ ((turn update_seconds outcome failures).0 ≡ failures + 1))
unfolding turn
turn-le u (refused problem) n = (omega arith, inl refl)
turn-le u already_running n = (omega arith, inl refl)
turn-le u pull_failed n = (omega arith, inr refl)
turn-le u restart_failed n = (omega arith, inr refl)
turn-le u (applied digest) n = (omega arith, inl refl)
