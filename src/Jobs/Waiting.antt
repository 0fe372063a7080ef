-- ===== src/Jobs/Waiting.antt =====
-- The loops of Jobs.Launch: what they leave on the rig, and that their fuel is enough.
use microtensor_compute.Common.{
  ℕ, zero, suc, ◌+◌, ◌*◌, ◌≤◌, ◌≡◌, refl, inl, inr, ◌⊎◌, ◌&&◌, not, Bool, true, false, List, [],
  ◌∷◌, Option, none, some, arith, Bool-cases, Option-cases, ltb, any_of,
}
use microtensor_compute.Common.Text.{Text, text_instance, occurs_in, lower}
use microtensor_compute.Jobs.Spec.{JobSpec, container_name}
use microtensor_compute.Jobs.Arguments.{run_arguments}
use microtensor_compute.Jobs.Remote.{
  Host, State, Command, CommandResult, Resource, container, volume, makes, is_left, run, succeeded,
  transport_failed, inspect_state, read_logs, remove_container, remove_probes, run_container,
}
use microtensor_compute.Jobs.Launch.{
  LaunchReason, not_running_yet, launch_reason, is_port_busy, port_busy_markers, state_of,
  diagnostics, poll, poll_seconds, port_retry_seconds, poll_verdict, status_in, pause, wait_running,
  launch_until, docker_run, remove_probe_containers,
}
use microtensor_compute.Jobs.Effects.{Shrinks, is_left_step, run-Shrinks}

-- A container that was just started is the job's, and the run is then not refused.
abbrev pub IsStarted : Option LaunchReason → JobSpec → Resource → Type 0
IsStarted none spec x = makes (run_container (container_name spec) []) x ≡ true
IsStarted (some reason) spec x = ⊥

started_alike :
    (spec : JobSpec) (arguments : List Text) (x : Resource)
    → makes (run_container (container_name spec) arguments) x ≡ true
    → makes (run_container (container_name spec) []) x ≡ true
started_alike spec arguments (container name) m = m
started_alike spec arguments (volume name) m = m

busy_failed : (result : CommandResult) → is_port_busy result ≡ true → succeeded result ≡ false
unfolding is_port_busy
busy_failed result h =
    not_first (succeeded result) (transport_failed result)
      (any_of (λ marker. occurs_in marker (lower result.stderr)) port_busy_markers) h
  where
    not_first : (a b c : Bool) → (not a && not b && c) ≡ true → a ≡ false
    not_first a b c h = ground arith

no_retry :
    (busy : Bool) (before after deadline : ℕ)
    → deadline ≤ before
    → before ≤ after
    → (busy && ltb after deadline) ≡ false
no_retry busy before after deadline h l = ground (arith, h, l)

module _ {World : Type 0} (host : Host World) where
  state_of-Shrinks : (name : Text) (s : State World) → Shrinks s.log (state_of host name s).1.log
  unfolding state_of
  state_of-Shrinks name s = run-Shrinks host (inspect_state name) s (λ x. refl)

  pub diagnostics-Shrinks :
      (name : Text) (s : State World) → Shrinks s.log (diagnostics host name s).1.log
  unfolding diagnostics
  diagnostics-Shrinks name s x h =
      state_of-Shrinks name s x
        (run-Shrinks host (read_logs name) (state_of host name s).1 (λ y. refl) x h)

  pub remove_probe_containers-Shrinks :
      (s : State World) → Shrinks s.log (remove_probe_containers host s).log
  unfolding remove_probe_containers
  remove_probe_containers-Shrinks s = run-Shrinks host remove_probes s (λ x. refl)

  pause-Shrinks : (seconds : ℕ) (s : State World) → Shrinks s.log (pause host seconds s).log
  unfolding pause
  pause-Shrinks seconds s x h = h

  pub poll-Shrinks :
      (fuel deadline : ℕ) (last name : Text) (s : State World)
      → Shrinks s.log (poll host fuel deadline last name s).1.log
  unfolding poll
  poll-Shrinks zero deadline last name s = λ x h. h
  poll-Shrinks (suc fuel) deadline last name s =
      let looked = state_of host name s in
      elim (Bool-cases (ltb (host.now s.world) deadline)) [
        | inr e ↦ rw (e, poll) (λ x h. h)
        | inl e ↦ elim (Option-cases (poll_verdict looked.0)) [
          | inr (verdict, v) ↦ rw (e, v, poll) (state_of-Shrinks name s)
          | inl v ↦
              rw (e, v, poll)
                (λ x h. state_of-Shrinks name s x (
                  pause-Shrinks 1 looked.1 x (
                    poll-Shrinks fuel deadline (status_in last looked.0) name
                      (pause host 1 looked.1) x h)))
        ]
      ]

  pub wait_running-Shrinks :
      (name : Text) (s : State World) → Shrinks s.log (wait_running host name s).1.log
  unfolding wait_running
  wait_running-Shrinks name s = poll-Shrinks 10 _ [] name s

  answered-IsStarted :
      (spec : JobSpec) (result : CommandResult) (s : State World) (x : Resource)
      → is_left x
          ((run_container (container_name spec) (run_arguments host.split spec), result) ∷ s.log)
        ≡ true
      → IsStarted (launch_reason result) spec x ⊎ (is_left x s.log ≡ true)
  unfolding launch_reason
  answered-IsStarted spec result s x h =
      elim (is_left_step x (run_container (container_name spec) (run_arguments host.split spec))
        result s.log h) [
          | inl m ↦ inl (rw m.1 (started_alike spec (run_arguments host.split spec) x m.0))
          | inr k ↦ inr k.1
        ]

  pub launch_until_lem :
      (fuel deadline : ℕ) (spec : JobSpec) (s : State World) (x : Resource)
      → is_left x (launch_until host fuel deadline spec s).1.log ≡ true
      → IsStarted (launch_until host fuel deadline spec s).0 spec x ⊎ (is_left x s.log ≡ true)
  unfolding launch_until run
  launch_until_lem zero deadline spec s x = λ h. answered-IsStarted spec _ s x h
  launch_until_lem (suc fuel) deadline spec s x =
      let command = run_container (container_name spec) (run_arguments host.split spec) in
      let ran = run host command s in
      let cleared = (run host (remove_container (container_name spec)) ran.1).1 in
      elim (Bool-cases (is_port_busy ran.0 && ltb (host.now ran.1.world) deadline)) [
        | inr e ↦ rw (e, launch_until) (λ h. answered-IsStarted spec ran.0 s x h)
        | inl e ↦
            rw (e, launch_until)
              (λ h. elim (launch_until_lem fuel deadline spec (pause host 5 cleared) x h) [
                | inl m ↦ inl m
                | inr k ↦
                    elim (is_left_step x command ran.0 s.log (
                      run-Shrinks host (remove_container (container_name spec)) ran.1 (λ y. refl) x
                        (pause-Shrinks 5 cleared x k))) [
                          | inl m ↦ absurd (cc (m.1, busy_failed ran.0 (ground (arith, e))))
                          | inr j ↦ inr j.1
                        ]
              ])
      ]

  pub docker_run_lem :
      (spec : JobSpec) (s : State World) (x : Resource)
      → is_left x (docker_run host spec s).1.log ≡ true
      → IsStarted (docker_run host spec s).0 spec x ⊎ (is_left x s.log ≡ true)
  unfolding docker_run
  docker_run_lem spec s x h = launch_until_lem 18 _ spec s x h

  -- The clock never runs back, and waiting advances it by what was waited for at least.
  abbrev pub Advances : Type 0
  Advances =
      ((command : Command) (world : World)
        → host.now world ≤ host.now (host.answer command world).1)
      × ((seconds : ℕ) (world : World)
          → host.now world + seconds ≤ host.now (host.sleep seconds world))

  poll_late :
      (fuel deadline : ℕ) (last name : Text) (s : State World)
      → ltb (host.now s.world) deadline ≡ false
      → poll host fuel deadline last name s ≡ (some (not_running_yet last), s)
  unfolding poll
  poll_late zero deadline last name s late = refl
  poll_late (suc fuel) deadline last name s late = rw (late, poll) refl

  poll_enough :
      (fuel larger deadline : ℕ) (last name : Text) (s : State World)
      → Advances
      → fuel ≤ larger
      → deadline ≤ host.now s.world + fuel
      → poll host larger deadline last name s ≡ poll host fuel deadline last name s
  unfolding poll
  poll_enough zero larger deadline last name s a l h =
      poll_late larger deadline last name s (ground (arith, h))
  poll_enough (suc fuel) zero deadline last name s a l h = absurd (omega (arith, l))
  poll_enough (suc fuel) (suc larger) deadline last name s a l h =
      let looked = state_of host name s in
      elim (Bool-cases (ltb (host.now s.world) deadline)) [
        | inr e ↦ rw (e, poll) refl
        | inl e ↦ elim (Option-cases (poll_verdict looked.0)) [
          | inr (verdict, v) ↦ rw (e, v, poll) refl
          | inl v ↦
              rw (e, v, poll)
                (poll_enough fuel larger deadline (status_in last looked.0) name
                  (pause host 1 looked.1) a (omega (arith, l)) (later looked.1 (looks s)))
        ]
      ]
    where
      looks : (t : State World) → host.now t.world ≤ host.now (state_of host name t).1.world
      looks t = unfold state_of run in a.0 (inspect_state name) t.world

      later :
          (t : State World)
          → host.now s.world ≤ host.now t.world
          → deadline ≤ host.now (pause host 1 t).world + fuel
      later t l = unfold pause in omega (arith, h, l, a.1 1 t.world)

  launch_enough :
      (fuel larger deadline : ℕ) (spec : JobSpec) (s : State World)
      → Advances
      → fuel ≤ larger
      → deadline ≤ host.now s.world + 5 * fuel
      → launch_until host larger deadline spec s ≡ launch_until host fuel deadline spec s
  unfolding launch_until run
  launch_enough zero zero deadline spec s a l h = refl
  launch_enough zero (suc larger) deadline spec s a l h =
      let command = run_container (container_name spec) (run_arguments host.split spec) in
      let ran = run host command s in
      rw
        (
          no_retry (is_port_busy ran.0) (host.now s.world) (host.now ran.1.world) deadline
              (omega (arith, h)) (a.0 command s.world),
          launch_until,
        )
        refl
  launch_enough (suc fuel) zero deadline spec s a l h = absurd (omega (arith, l))
  launch_enough (suc fuel) (suc larger) deadline spec s a l h =
      let command = run_container (container_name spec) (run_arguments host.split spec) in
      let ran = run host command s in
      let cleared = (run host (remove_container (container_name spec)) ran.1).1 in
      elim (Bool-cases (is_port_busy ran.0 && ltb (host.now ran.1.world) deadline)) [
        | inr e ↦ rw (e, launch_until) refl
        | inl e ↦
            rw (e, launch_until)
              (launch_enough fuel larger deadline spec (pause host 5 cleared) a (omega (arith, l)) (
                unfold pause in
                omega (
                  arith,
                  h,
                  a.0 command s.world,
                  a.0 (remove_container (container_name spec)) ran.1.world,
                  a.1 5 cleared.world,
                )))
      ]

  -- Where the clock never runs back and waiting advances it, the fuel is enough: more of it changes
  -- neither whether the container is seen running nor whether it is started.
  pub waiting_enough :
      (polls runs : ℕ) (name : Text) (spec : JobSpec) (s : State World)
      → Advances
      → 10 ≤ polls
      → 18 ≤ runs
      → (poll host polls (host.now s.world + poll_seconds) [] name s ≡ wait_running host name s)
        × (launch_until host runs (host.now s.world + port_retry_seconds) spec s
            ≡ docker_run host spec s)
  unfolding wait_running docker_run
  waiting_enough polls runs name spec s a p r = (
    poll_enough 10 polls (host.now s.world + 10) [] name s a p (omega arith),
    launch_enough 18 runs (host.now s.world + 90) spec s a r (omega arith),
  )
