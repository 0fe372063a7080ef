-- ===== src/Agent/Updater.antt =====
-- agent/updater/watchtower.py, with Release of protocol/session.py: which release the agent takes,
-- and when it looks again. The answers of docker and of the disk are parameters, and a turn yields
-- what it asked of them, in order. The signed message is kept as its two parts, the digest and the
-- timestamp; moments are seconds.
pub mod Laws
pub mod Examples
use microtensor_compute.Common.{
  ℕ, ◌+◌, ◌-◌, ◌*◌, ◌^◌, min, max, ◌&&◌, ◌||◌, not, Bool, true, false, List, [], ◌∷◌, ◌++◌, Option,
  none, some, if◌then◌else◌, ltb, is_empty, contains, any_of, keep_if, drop,
}
use microtensor_compute.Common.Text.{Text, codes, text_eq, text_instance, starts_with, ends_with}
use microtensor_compute.Agent.Access.Nonces.{matches_hex}

pub record Release : Type 0 where
  pub digest : Text
  pub timestamp : ℕ
  pub signature : Text
  pub validator : Text

abbrev pub release_skew_seconds : ℕ
release_skew_seconds = 600

abbrev pub release_message : Text → ℕ → Text × ℕ
release_message digest timestamp = (digest, timestamp)

-- `^sha256:[0-9a-f]{64}$`
unfoldable pub well_formed_digest : Text → Bool
unfolding starts_with matches_hex
well_formed_digest digest = starts_with (codes "sha256:") digest && matches_hex 64 (drop 7 digest)

pub data Problem : Type 0 where
  no_release bad_digest unknown_signer outside_window bad_signature : Problem

abbrev pub distance : ℕ → ℕ → ℕ
distance a b = (a - b) + (b - a)

-- What `verify_hotkey` answers is a parameter.
abbrev pub Scheme : Type 0
Scheme = Text → Text × ℕ → Text → Bool

unfoldable pub verify_given : Scheme → Release → List Text → ℕ → Option Problem
unfolding well_formed_digest contains text_eq
verify_given verify release validators now =
    if not (well_formed_digest release.digest)
    then some bad_digest
    else if is_empty release.validator || not (contains release.validator validators)
    then some unknown_signer
    else if ltb release_skew_seconds (distance now release.timestamp)
    then some outside_window
    else if not (
        verify release.validator (release_message release.digest release.timestamp)
          release.signature)
    then some bad_signature
    else none

-- The line of the environment file that names the image.
abbrev pub env_key : Text
env_key = codes "AGENT_IMAGE_SHA256="

unfoldable pub rewrite_env : List Text → Text → List Text
unfolding keep_if starts_with
rewrite_env lines digest =
    keep_if (λ line. not (starts_with env_key line)) lines ++ (env_key ++ digest) ∷ []

-- What the agent asks of docker and of the disk, in order.
pub data Effect : Type 0 where
  pull inspect write_env start_helper : Text → Effect

-- The answers to the commands of a turn, each of which is given once at most. `digests` is what the
-- inspection of the pulled image shows; none: it failed.
pub record Docker : Type 0 where
  pub running : Text
  pub pulls : Text → Bool
  pub digests : Text → Option (List Text)
  pub has_compose_file : Bool
  pub env_writable : Bool
  pub helper_succeeds : Text → Bool

abbrev pub carries : Option (List Text) → Text → Bool
carries none digest = false
carries (some digests) digest = any_of (ends_with (codes "@" ++ digest)) digests

unfoldable pub pull_and_verify : Docker → Text → Bool × List Effect
unfolding any_of ends_with
pull_and_verify docker digest =
    if not (docker.pulls digest)
    then (false, pull digest ∷ [])
    else (carries (docker.digests digest) digest, pull digest ∷ inspect digest ∷ [])

-- A file that cannot be written is left as it is.
unfoldable pub restart : Docker → Text → Bool × List Effect
restart docker digest =
    if not docker.has_compose_file
    then (false, [])
    else if not docker.env_writable
    then (false, [])
    else (docker.helper_succeeds digest, write_env digest ∷ start_helper digest ∷ [])

pub data Outcome : Type 0 where
  refused : Problem → Outcome
  already_running : Outcome
  pull_failed restart_failed : Outcome
  applied : Text → Outcome

unfoldable pub apply_release : Docker → Release → Outcome × List Effect
unfolding text_eq pull_and_verify restart
apply_release docker release =
    let pulled = pull_and_verify docker release.digest in
    let restarted = restart docker release.digest in
    if text_eq docker.running release.digest
    then (already_running, [])
    else if not pulled.0
    then (pull_failed, pulled.1)
    else if not restarted.0
    then (restart_failed, pulled.1 ++ restarted.1)
    else (applied release.digest, pulled.1 ++ restarted.1)

unfoldable pub check_once : Scheme → Docker → Option Release → List Text → ℕ → Outcome × List Effect
unfolding verify_given apply_release
check_once verify docker none validators now = (refused no_release, [])
check_once verify docker (some release) validators now =
    elim (verify_given verify release validators now) [
      | some problem ↦ (refused problem, [])
      | none ↦ apply_release docker release
    ]

abbrev pub max_backoff : ℕ
max_backoff = 3600

-- A turn of the loop of `run`: the count of failures and the delay before the next turn. A pull or
-- a restart that fails raises.
unfoldable pub turn : ℕ → Outcome → ℕ → ℕ × ℕ
turn update_seconds (refused problem) failures = (0, update_seconds)
turn update_seconds already_running failures = (0, update_seconds)
turn update_seconds (applied digest) failures = (0, max update_seconds 120)
turn update_seconds pull_failed failures =
    (failures + 1, min (update_seconds * 2 ^ min (failures + 1) 6) max_backoff)
turn update_seconds restart_failed failures =
    (failures + 1, min (update_seconds * 2 ^ min (failures + 1) 6) max_backoff)
