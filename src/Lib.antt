-- ===== src/Lib.antt =====
-- Microtensor Compute: a model of the rig's agent and of the validator, with theorems about it.
--
-- A miner's rig runs the agent; validators open SSH sessions on it, check it, place work on it and
-- set weights on the chain by its score. The parts and their files:
--   Common     the shared helpers: Boolean tests, lists, dictionaries in insertion order, stable
--              sorting, texts as code points, integers, and an interface of floating point numbers
--              (Common.Float) with the laws that the proofs use; Common.Float.FixedPoint is an
--              instance with two decimals, on which the witnesses run
--   Protocol   protocol/session.py: the request that opens a session (Protocol.Session)
--   Agent      agent/control/queue.py, the outbound queue (Agent.Outbound), and agent/access: the
--              nonce book (Agent.Access.Nonces), the authorized_keys file (Agent.Access.Keys) and
--              the sessions (Agent.Access.Grants), which use both; and agent/updater/watchtower.py
--              (Agent.Updater)
--   Work       validator/data/tiers.py (Work.Tiers) and, of validator/work, placement.py (Work.Rigs
--              and Work.Placement), drain.py (Work.Drain) and power.py (Work.Power)
--   Scoring    validator/scoring/formula.py (Scoring.Formula) and the vector of
--              validator/scoring/weights.py (Scoring.Weights)
--   Verify     protocol/failures.py (Verify.Failures) and, of validator/verify, duplicates.py
--              (Verify.Duplicates), exclusivity.py (Verify.Exclusivity) and challenge.py: the digest
--              (Verify.Digest, Verify.Digesting) and the verdict (Verify.Challenge, Verify.Judging)
--   Deep       validator/schedule/deep.py: the order of the checks and their outcome (Deep,
--              Deep.Passing), which calls those of Verify, and the rigs that are due (Deep.Due)
--   Jobs       validator/work/containers.py over validator/session/runner.py (Jobs.Remote) and
--              validator/storage/volumes.py (Jobs.Volumes, Jobs.Storage): the spec of a job
--              (Jobs.Spec), its ports, devices and arguments, how it is created and rolled back
--              (Jobs.Frames, Jobs.Create, Jobs.Rollback) and taken down (Jobs.Teardown), and the
--              teardowns of validator/storage/sweep.py that are tried again (Jobs.Sweeping)
--   Monitor    validator/scoring/reliability.py (Monitor.Uptime) and the probe of
--              validator/schedule/express.py (Monitor.Express), which feeds it, and
--              validator/recovery/gpu_wedge.py (Monitor.Wedge)
-- A session's life runs through these: Protocol.Session reads the request, Agent.Access.Grants asks
-- the nonce book and writes the key file. The tiers say which kinds of work a rig may take, and the
-- placement reads that from the roster. Scores of rigs become weights of uids.
--
-- Conventions. A method that changes its object is a function from the state to the state; a lock
-- makes a method one step, and a run is a list of steps. The clock is an argument. A dictionary is
-- an association list in insertion order, a set is a list. Floating point numbers are those of
-- Common.Float: laws of comparison and rounding that doubles keep, each where its operands or its
-- result are finite and integers are at most 2 ^ 53, so a theorem about scores or weights asks that
-- nothing overflows and that no NaN comes in; amounts that are only compared are natural numbers of
-- a small unit. A loop is structural recursion, or takes the list of the answers that it waits for,
-- as in Work.Drain.
-- Three loops run on fuel: the search for a free port has one turn for each port of the range, and
-- the two loops that wait for a container have 10 and 18 turns, since each turn sleeps for 1 and 5
-- seconds of the 10 and 90 that they last (Jobs.Waiting).
--
-- The rig. A command that the validator sends is a value of Command, and what it answers and changes
-- is a parameter (Host); a log of commands and answers says what was made on the rig and what it was
-- told to remove since, whatever it answered to that. While a command runs, any job may be cancelled.
-- Writes of the validator's own disk work, but for that of a job's record (save_works).
--
-- Parameters: the signature scheme (`verify`), Docker and nvidia-smi on the rig, the
-- challenge library, the JSON, shell and date parsers, the ledger's
-- uptime and the jobs that the roster reports. Not modelled: input and output (Docker, NVML, SSH,
-- HTTP, the chain), the asyncio wake-up of a waiting reader, and the parts of the agent and the
-- validator that no file above names.
pub mod Agent
pub mod Common
pub mod Deep
pub mod Jobs
pub mod Monitor
pub mod Protocol
pub mod Scoring
pub mod Verify
pub mod Work
