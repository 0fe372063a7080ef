-- ===== src/Work/Drain.antt =====
-- validator/work/drain.py: a rig is told to drain and watched until no job runs, or the deadline.
-- What the pool answers in each round is an argument, with the seconds since the start; none is a
-- ServerError. A run is none where the rounds are over before the loop is.
use microtensor_compute.Common.{
  ℕ, ◌≤◌, ◌≡◌, refl, ap, ◌∙◌, In, Option-cases, inl, inr, ◌⊎◌, ◌&&◌, not, Bool, true, false, List,
  [], ◌∷◌, Option, none, some, arith, if◌then◌else◌, leb, ltb, is_empty, length, contains,
  from_option, any_of, Bool-cases, is_some,
}
use microtensor_compute.Common.Text.{Text, codes, text_eq, text_instance}

pub data DrainReason : Type 0 where
  command_refused view_failed : DrainReason
  still_running : ℕ → DrainReason

pub record DrainResult : Type 0 where
  pub drained : Bool
  pub remaining : List Text
  pub elapsed : ℕ
  pub command_id : ℕ
  pub command_state : Text
  pub reason : Option DrainReason

pub record Round : Type 0 where
  pub jobs : Option (List Text)
  pub answered_state : Option Text
  pub elapsed : ℕ

abbrev pub final_states : List Text
final_states = codes "done" ∷ codes "failed" ∷ codes "expired" ∷ []

-- The state of the command after a round; an empty answer and an error keep the old one.
unfoldable pub next_state : ℕ → Text → Option Text → Text
unfolding contains text_eq
next_state command_id state answer =
    let asked = ltb 0 command_id && not (contains state final_states) in
    let given = from_option state answer in
    if asked then (if is_empty given then state else given) else state

unfoldable pub watch : ℕ → ℕ → Text → List Text → List Round → Option DrainResult
unfolding next_state
watch deadline command_id state remaining [] = none
watch deadline command_id state remaining (round ∷ rounds) =
    let running = from_option [] round.jobs in
    let after = next_state command_id state round.answered_state in
    let rest = watch deadline command_id after running rounds in
    if not (is_some round.jobs)
    then some (record {
      drained = false;
      remaining = remaining;
      elapsed = round.elapsed;
      command_id = command_id;
      command_state = state;
      reason = some view_failed;
    })
    else if is_empty running
    then some (record {
      drained = true;
      remaining = [];
      elapsed = round.elapsed;
      command_id = command_id;
      command_state = after;
      reason = none;
    })
    else if leb deadline round.elapsed
    then some (record {
      drained = false;
      remaining = running;
      elapsed = round.elapsed;
      command_id = command_id;
      command_state = after;
      reason = some (still_running (length running));
    })
    else rest

-- `command` is the id and the state of the drain command, none where it is refused.
unfoldable pub drain : Option (ℕ × Text) → ℕ → List Round → Option DrainResult
unfolding watch
drain none deadline rounds = some (record {
  drained = false;
  remaining = [];
  elapsed = 0;
  command_id = 0;
  command_state = [];
  reason = some command_refused;
})
drain (some command) deadline rounds = watch deadline command.0 command.1 [] rounds

-- One of the rounds, in which the pool shows these jobs at this moment.
pub record IsShown (rounds : List Round) (jobs : Option (List Text)) (elapsed : ℕ) : Type 0 where
  pub round : Round
  pub member : In round rounds
  pub seen : round.jobs ≡ jobs
  pub moment : round.elapsed ≡ elapsed

-- What a result says of the rounds.
abbrev pub IsHonest : ℕ → List Round → DrainResult → Type 0
IsHonest deadline rounds r =
    ((r.drained ≡ true)
      × (r.remaining ≡ [])
      × (r.reason ≡ none)
      × IsShown rounds (some []) r.elapsed)
    ⊎ ((r.drained ≡ false) × (r.reason ≡ some view_failed) × IsShown rounds none r.elapsed)
    ⊎ ((r.drained ≡ false)
        × (is_empty r.remaining ≡ false)
        × (deadline ≤ r.elapsed)
        × (r.reason ≡ some (still_running (length r.remaining)))
        × IsShown rounds (some r.remaining) r.elapsed)

abbrev pub IsWatched : ℕ → List Round → Option DrainResult → Type 0
IsWatched deadline rounds none = ⊥
IsWatched deadline rounds (some r) = IsHonest deadline rounds r

abbrev pub IsDone : Option (ℕ × Text) → ℕ → List Round → Option DrainResult → Type 0
IsDone command deadline rounds none = ⊥
IsDone none deadline rounds (some r) =
    (r.drained ≡ false) × (r.reason ≡ some command_refused) × (r.remaining ≡ [])
IsDone (some command) deadline rounds (some r) = IsHonest deadline rounds r

emptied : (jobs : List Text) → is_empty jobs ≡ true → jobs ≡ []
emptied [] h = refl
emptied (job ∷ jobs) h = cc

-- The rounds that are left are among all of them.
watch-IsWatched :
    (deadline command_id : ℕ) (state : Text) (remaining : List Text) (all rounds : List Round)
    → ((round : Round) → In round rounds → In round all)
    → any_of (λ round. leb deadline round.elapsed) rounds ≡ true
    → IsWatched deadline all (watch deadline command_id state remaining rounds)
unfolding watch any_of
watch-IsWatched deadline id state remaining all [] sub h = cc
watch-IsWatched deadline id state remaining all (round ∷ rounds) sub h =
    elim (Option-cases round.jobs) [
      | inl j ↦ rw (j, watch) (inr (inl (refl, refl, shown none j)))
      | inr (running, j) ↦ elim (Bool-cases (is_empty running)) [
        | inl e ↦
            rw (j, e, watch)
              (inl (refl, refl, refl, shown (some []) (j ∙ ap some (emptied running e))))
        | inr e ↦ elim (Bool-cases (leb deadline round.elapsed)) [
          | inl d ↦
              rw (j, e, d, watch) (inr (inr (refl, e, ground arith, refl, shown (some running) j)))
          | inr d ↦
              rw (j, e, d, watch)
                (watch-IsWatched deadline id (next_state id state round.answered_state) running all
                  rounds (λ r i. sub r (inr i)) (rw d at h))
        ]
      ]
    ]
  where
    shown : (jobs : Option (List Text)) → round.jobs ≡ jobs → IsShown all jobs round.elapsed
    shown jobs j = record { round = round; member = sub round (inl refl); seen = j; moment = refl }

-- Draining comes to an end: where some round is asked for at the deadline or after it, there is a
-- result. It is refused where the command is; otherwise it is that of one of the rounds: drained
-- where that round shows no job, without a view where the round has none, or past the deadline with
-- the jobs that the round shows.
pub drain-IsDone :
    (command : Option (ℕ × Text)) (deadline : ℕ) (rounds : List Round)
    → any_of (λ round. leb deadline round.elapsed) rounds ≡ true
    → IsDone command deadline rounds (drain command deadline rounds)
unfolding drain
drain-IsDone none deadline rounds h = (refl, refl, refl)
drain-IsDone (some command) deadline rounds h =
    done (watch deadline command.0 command.1 [] rounds)
      (watch-IsWatched deadline command.0 command.1 [] rounds rounds (λ r i. i) h)
  where
    done :
        (result : Option DrainResult)
        → IsWatched deadline rounds result
        → IsDone (some command) deadline rounds result
    done none w = w
    done (some r) w = w
