-- ===== src/Jobs/Accounting.antt =====
-- At the end of the body of Jobs.Create the frame names all that is new on the rig.
use microtensor_compute.Common.{
  ◌≡◌, refl, inl, inr, ◌⊎◌, ◌&&◌, not, Bool, true, false, List, Option, none, some, if◌then◌else◌,
  is_some, Bool-cases,
}
use microtensor_compute.Common.Text.{Text}
use microtensor_compute.Jobs.Remote.{Host, State, Resource, container, volume, Entry, is_left}
use microtensor_compute.Jobs.Launch.{LaunchReason, docker_run}
use microtensor_compute.Jobs.Waiting.{IsStarted, docker_run_lem, remove_probe_containers-Shrinks}
use microtensor_compute.Jobs.Create.{
  validate_stage, reserve_stage, pull_stage, cleanup_stage, volume_stage, device_stage, power_stage,
  probe_stage, launch_stage, running_stage, encrypted_stage, record_body, create_body,
}
use microtensor_compute.Jobs.Frames.{
  CreateResult, Frame, Point, Stage, Body, go_on, ◌then◌, check_stage,
}
use microtensor_compute.Jobs.Stages.{
  Owns, Covers, Stays, Covers-shrink, reserve_stage-Stays, pull_stage-Stays, cleanup_stage-Stays,
  make_volumes-Stays, device_stage-Stays, power_stage-Stays, running_stage-Stays,
  mount_encrypted-Stays,
}

module _ {World : Type 0} (host : Host World) (before : List Entry) where
  -- At the end of the body the frame names all that it made, launched or not.
  abbrev pub Accounts : Point World → Type 0
  Accounts p = Covers before false p ⊎ Covers before true p

  phase_Accounts : (launched : Bool) (p : Point World) → Covers before launched p → Accounts p
  phase_Accounts true p c = inr c
  phase_Accounts false p c = inl c

  abbrev pub Ends : Bool → Body World → Type 0
  Ends launched body = (p : Point World) → Covers before launched p → Accounts (body p).1

  then-Ends :
      (launched : Bool) (stage : Stage World) (rest : Body World)
      → Stays host before launched stage
      → Ends launched rest
      → Ends launched (stage then rest)
  then-Ends launched stage rest stays ends p c = from_verdict (stage p) (stays p c)
    where
      from_verdict :
          (outcome : Option CreateResult × Point World)
          → Covers before launched outcome.1
          → Accounts (go_on outcome rest).1
      from_verdict (some result, q) d = phase_Accounts launched q d
      from_verdict (none, q) d = ends q d

  record_body-Ends : (launched : Bool) (rig_id : Text) → Ends launched (record_body host rig_id)
  unfolding record_body
  record_body-Ends launched rig_id (f, s) c =
      phase_Accounts launched _
        (elim (Bool-cases (is_some s.store && not (host.save_works s.world))) [
          | inl e ↦ rw (e, record_body) c
          | inr e ↦ rw (e, record_body) (Covers-shrink host before launched f s _ (λ x h. h) c)
        ])

  launch_phase :
      (problem : Option LaunchReason) (f : Frame) (s t : State World)
      → ((x : Resource)
          → is_left x t.log ≡ true
          → IsStarted problem f.spec x ⊎ (is_left x s.log ≡ true))
      → Covers before false (f, s)
      → Covers before (not (is_some problem)) (record f { launched = not (is_some problem) }, t)
  launch_phase none f s t left c = record {
    left = λ x h. elim (left x h) [
      | inl m ↦ inr (started_owned x m)
      | inr k ↦ elim (c.left x k) [ inl b ↦ inl b | inr o ↦ inr (still_owned x o) ]
    ];
    valid_names = c.valid_names;
    phase = refl;
  }
    where
      started_owned :
          (x : Resource) → IsStarted none f.spec x → Owns (record f { launched = true }) x
      started_owned (container name) m = (refl, m)
      started_owned (volume name) m = absurd (cc m)

      still_owned : (x : Resource) → Owns f x → Owns (record f { launched = true }) x
      still_owned (container name) o = (refl, o.1)
      still_owned (volume name) o = o
  launch_phase (some reason) f s t left c = record {
    left = λ x h. elim (left x h) [
      | inl m ↦ absurd m
      | inr k ↦ elim (c.left x k) [ inl b ↦ inl b | inr o ↦ inr (not_owned x o) ]
    ];
    valid_names = c.valid_names;
    phase = refl;
  }
    where
      not_owned : (x : Resource) → Owns f x → Owns (record f { launched = false }) x
      not_owned (container name) o = absurd (cc (o.0, c.phase))
      not_owned (volume name) o = o

  launch_stage-Ends :
      (rest : Body World)
      → ((launched : Bool) → Ends launched rest)
      → Ends false (launch_stage host then rest)
  unfolding launch_stage
  launch_stage-Ends rest ends (f, s) c =
      let ran = docker_run host f.spec s in
      let launched = not (is_some ran.0) in
      then-Ends launched (λ p. ((launch_stage host (f, s)).0, p)) rest (λ p d. d) (ends launched)
        (record f { launched = launched }, ran.1)
        (launch_phase ran.0 f s ran.1 (docker_run_lem host f.spec s) c)

  running_body-Ends :
      (launched : Bool) (rig_id : Text)
      → Ends launched (
          running_stage host
          then encrypted_stage host
          then check_stage
          then record_body host rig_id)
  running_body-Ends launched rig_id =
      then-Ends launched (running_stage host) _ (running_stage-Stays host before launched) (
        then-Ends launched (encrypted_stage host) _
          (λ p c. mount_encrypted-Stays host before launched p.0.spec.volumes p c)
          (then-Ends launched check_stage (record_body host rig_id) (λ p c. c)
            (record_body-Ends launched rig_id)))

  probe_stage-Stays : Stays host before false (probe_stage host)
  probe_stage-Stays (f, s) c =
      Covers-shrink host before false f s _ (remove_probe_containers-Shrinks host s) c

  making_body-Ends :
      (rest : Body World)
      → Ends false rest
      → Ends false (
          cleanup_stage host
          then volume_stage host
          then device_stage host
          then power_stage host
          then probe_stage host
          then check_stage
          then rest)
  making_body-Ends rest ends =
      then-Ends false (cleanup_stage host) _ (cleanup_stage-Stays host before false) (
        then-Ends false (volume_stage host) _
          (λ p c. make_volumes-Stays host before false p.0.spec.volumes p c)
          (then-Ends false (device_stage host) _ (device_stage-Stays host before false) (
            then-Ends false (power_stage host) _ (power_stage-Stays host before false) (
              then-Ends false (probe_stage host) (check_stage then rest) probe_stage-Stays
                (then-Ends false check_stage rest (λ p c. c) ends)))))

  pub create_body-Ends :
      (allowlist : List Text) (rig_id : Text) → Ends false (create_body host allowlist rig_id)
  unfolding create_body validate_stage
  create_body-Ends allowlist rig_id =
      then-Ends false (validate_stage host allowlist) _ (λ p c. c)
        (then-Ends false check_stage _ (λ p c. c)
          (then-Ends false (reserve_stage host) _ (reserve_stage-Stays host before false) (
            then-Ends false (pull_stage host) _ (pull_stage-Stays host before false) (
              then-Ends false check_stage _ (λ p c. c)
                (making_body-Ends _
                  (launch_stage-Ends _ (λ launched. running_body-Ends launched rig_id)))))))
