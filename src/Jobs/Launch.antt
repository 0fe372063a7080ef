-- ===== src/Jobs/Launch.antt =====
-- docker_run, state_of, wait_running and diagnostics of validator/work/containers.py: starting the
-- container and seeing that it runs. Seconds are whole. The loops run on fuel, which Jobs.Waiting
-- shows to be enough where the clock advances with each wait.
use microtensor_compute.Common.{
  ℕ, zero, suc, ◌+◌, ◌&&◌, ◌||◌, not, Bool, true, false, List, [], ◌∷◌, Option, none, some,
  if◌then◌else◌, ltb, any_of,
}
use microtensor_compute.Common.Text.{Text, codes, text_eq, occurs_in, strip, lower}
use microtensor_compute.Jobs.Spec.{JobSpec, container_name}
use microtensor_compute.Jobs.Inflight.{cancel_each}
use microtensor_compute.Jobs.Arguments.{run_arguments}
use microtensor_compute.Jobs.Devices.{lines_of}
use microtensor_compute.Jobs.Remote.{
  Host, State, CommandResult, ContainerState, run, succeeded, transport_failed, tail_of, text_or,
  map_option, inspect_state, read_logs, run_container, remove_container, remove_probes,
}

pub data LaunchReason : Type 0 where
  answered : Text → LaunchReason
  stopped_with : Text → Text → LaunchReason
  not_running_yet : Text → LaunchReason

pub record Diagnostics : Type 0 where
  pub state : Option ContainerState
  pub logs : Text

abbrev pub port_retry_seconds : ℕ
port_retry_seconds = 90

abbrev pub poll_seconds : ℕ
poll_seconds = 10

abbrev pub port_busy_markers : List Text
port_busy_markers =
    codes "port is already allocated"
    ∷ codes "address already in use"
    ∷ codes "failed to bind host port"
    ∷ codes "bind for"
    ∷ []

unfoldable pub is_port_busy : CommandResult → Bool
unfolding any_of occurs_in succeeded transport_failed
is_port_busy result =
    not (succeeded result)
    && not (transport_failed result)
    && any_of (λ marker. occurs_in marker (lower result.stderr)) port_busy_markers

-- What docker_run returns when it does not try again.
unfoldable pub launch_reason : CommandResult → Option LaunchReason
unfolding succeeded transport_failed strip tail_of
launch_reason result =
    if succeeded result
    then none
    else if transport_failed result
    then some (answered result.error)
    else some (answered (text_or (strip (tail_of 600 result.stderr)) result.error))

abbrev pub last_line : List Text → Option Text
last_line [] = none
last_line (line ∷ []) = some line
last_line (line ∷ more ∷ lines) = last_line (more ∷ lines)

abbrev pub status_in : Text → Option ContainerState → Text
status_in last none = last
status_in last (some state) = state.status

-- What a poll settles: none, to poll again.
abbrev pub poll_verdict : Option ContainerState → Option (Option LaunchReason)
poll_verdict none = none
poll_verdict (some state) =
    if state.running
    then some none
    else if text_eq state.status (codes "exited") || text_eq state.status (codes "dead")
    then some (some (stopped_with state.status state.exit_code))
    else none

module _ {World : Type 0} (host : Host World) where
  -- asyncio.sleep, during which others may cancel jobs too.
  unfoldable pub pause : ℕ → State World → State World
  unfolding cancel_each
  pause seconds s =
      let world = host.sleep seconds s.world in
      record s {
        world = world;
        inflight = map_option (cancel_each (host.cancels world)) s.inflight;
      }

  abbrev pub parsed : Option Text → Option ContainerState
  parsed none = none
  parsed (some line) = host.parse_state line

  unfoldable pub state_of : Text → State World → Option ContainerState × State World
  unfolding run succeeded lines_of strip
  state_of name s =
      let (result, after) = run host (inspect_state name) s in
      (
        (if succeeded result then parsed (last_line (lines_of (strip result.stdout))) else none),
        after,
      )

  unfoldable pub diagnostics : Text → State World → Diagnostics × State World
  unfolding state_of run tail_of
  diagnostics name s =
      let (state, looked) = state_of name s in
      let (result, after) = run host (read_logs name) looked in
      (record { state = state; logs = tail_of 4000 result.stdout }, after)

  unfoldable pub poll : ℕ → ℕ → Text → Text → State World → Option LaunchReason × State World
  unfolding state_of pause text_eq
  poll zero deadline last name s = (some (not_running_yet last), s)
  poll (suc fuel) deadline last name s =
      let (state, looked) = state_of name s in
      elim (ltb (host.now s.world) deadline) [
        | false ↦ (some (not_running_yet last), s)
        | true ↦ elim (poll_verdict state) [
          | some verdict ↦ (verdict, looked)
          | none ↦ poll fuel deadline (status_in last state) name (pause 1 looked)
        ]
      ]

  unfoldable pub wait_running : Text → State World → Option LaunchReason × State World
  unfolding poll
  wait_running name s = poll 10 (host.now s.world + poll_seconds) [] name s

  unfoldable pub launch_until : ℕ → ℕ → JobSpec → State World → Option LaunchReason × State World
  unfolding run is_port_busy launch_reason pause run_arguments
  launch_until zero deadline spec s =
      let (result, after) =
        run host (run_container (container_name spec) (run_arguments host.split spec)) s in
      (launch_reason result, after)
  launch_until (suc fuel) deadline spec s =
      let (result, after) =
        run host (run_container (container_name spec) (run_arguments host.split spec)) s in
      elim (is_port_busy result && ltb (host.now after.world) deadline) [
        | false ↦ (launch_reason result, after)
        | true ↦
            let (removed, cleared) = run host (remove_container (container_name spec)) after in
            launch_until fuel deadline spec (pause 5 cleared)
      ]

  unfoldable pub docker_run : JobSpec → State World → Option LaunchReason × State World
  unfolding launch_until
  docker_run spec s = launch_until 18 (host.now s.world + port_retry_seconds) spec s

  unfoldable pub remove_probe_containers : State World → State World
  unfolding run
  remove_probe_containers s = (run host remove_probes s).1
