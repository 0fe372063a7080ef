-- ===== src/Verify/Exclusivity.antt =====
-- validator/verify/exclusivity.py: the processes on the cards that the pool did not place, and the
-- jobs that are gone. A process is its pid and its container, 0 and "" where the scrape has none.
pub mod Foreign
use microtensor_compute.Common.{
  ℕ, suc, ◌+◌, ◌≡◌, refl, ap, sym, ◌∙◌, ◌&&◌, ◌||◌, not, Bool, true, false, List, [], ◌∷◌, ◌++◌,
  Option, none, some, arith, if◌then◌else◌, is_empty, contains, any_of, all_of, ltb, length, map,
  Bool-cases, inl, inr, length-append, take, nat_eq,
}
use microtensor_compute.Common.Text.{Text, codes, text_eq, text_instance, starts_with}
use microtensor_compute.Verify.Failures.{Verdict, Failure, unauthorised_work, not_placed, passed}

pub record OwnContainer : Type 0 where
  pub id : Text
  pub name : Text
  pub job : Text
  pub state : Text

pub record Process : Type 0 where
  pub pid : ℕ
  pub container : Text

pub record Card : Type 0 where
  pub uuid : Text
  pub processes : List Process

-- The fields of protocol/session.py `JobRecord` that the check reads; a pid below 1 is 0.
pub record PlacedJob : Type 0 where
  pub job_id : Text
  pub pid : ℕ
  pub container : Text

abbrev pub matches_name : Text → Text → Bool
matches_name container candidate =
    not (is_empty candidate)
    && (text_eq container candidate
        || starts_with candidate container
        || starts_with container candidate)

unfoldable pub container_matches : Text → List Text → Bool
unfolding any_of text_eq starts_with
container_matches container known =
    if is_empty container then false else any_of (matches_name container) known

-- `job_pids`, `job_containers` and `our_names`; the sets are lists, since only membership is asked.
unfoldable pub job_pids : List PlacedJob → List ℕ
job_pids [] = []
job_pids (job ∷ jobs) = let rest = job_pids jobs in if ltb 0 job.pid then job.pid ∷ rest else rest

unfoldable pub job_containers : List PlacedJob → List Text
job_containers [] = []
job_containers (job ∷ jobs) =
    let rest = job_containers jobs in if is_empty job.container then rest else job.container ∷ rest

unfoldable pub our_names : List OwnContainer → List Text
our_names [] = []
our_names (c ∷ cs) =
    let rest = our_names cs in
    c.id ∷ c.name ∷ (if is_empty c.job then rest else (codes "mt-" ++ c.job) ∷ rest)

abbrev pub is_authorised : List ℕ → List Text → Process → Bool
is_authorised pids known p = contains p.pid pids || container_matches p.container known

-- What the loop over the cards and their processes gathers.
pub record Tally : Type 0 where
  pub seen_pids : List ℕ
  pub authorised : ℕ
  pub foreign : List (Text × Process)

unfoldable pub tally_one : List ℕ → List Text → Text → Process → Tally → Tally
unfolding contains container_matches
tally_one pids known uuid p t =
    let seen = record t { seen_pids = t.seen_pids ++ p.pid ∷ [] } in
    if is_authorised pids known p
    then record seen { authorised = seen.authorised + 1 }
    else record seen { foreign = seen.foreign ++ (uuid, p) ∷ [] }

unfoldable pub tally_card : List ℕ → List Text → Text → List Process → Tally → Tally
unfolding tally_one
tally_card pids known uuid [] t = t
tally_card pids known uuid (p ∷ ps) t =
    tally_card pids known uuid ps (tally_one pids known uuid p t)

unfoldable pub tally_cards : List ℕ → List Text → List Card → Tally → Tally
unfolding tally_card
tally_cards pids known [] t = t
tally_cards pids known (card ∷ cards) t =
    tally_cards pids known cards (tally_card pids known card.uuid card.processes t)

abbrev pub no_tally : Tally
no_tally = record { seen_pids = []; authorised = 0; foreign = [] }

unfoldable pub tally : List Card → List PlacedJob → List OwnContainer → Tally
unfolding job_pids job_containers our_names tally_cards
tally gpus jobs ours =
    tally_cards (job_pids jobs) (job_containers jobs ++ our_names ours) gpus no_tally

unfoldable pub running_names : List OwnContainer → List Text
unfolding text_eq
running_names [] = []
running_names (c ∷ cs) =
    let rest = running_names cs in
    if is_empty c.state || text_eq c.state (codes "running") then c.id ∷ c.name ∷ rest else rest

abbrev pub is_alive : Option (List ℕ) → ℕ → Bool
is_alive none pid = false
is_alive (some pids) pid = contains pid pids

abbrev pub is_dead : List ℕ → Option (List ℕ) → List Text → PlacedJob → Bool
is_dead seen alive running job =
    if ltb 0 job.pid
    then not (contains job.pid seen) && not (is_alive alive job.pid)
    else not (is_empty job.container) && not (container_matches job.container running)

unfoldable pub dead_jobs : List ℕ → Option (List ℕ) → List Text → List PlacedJob → List PlacedJob
unfolding contains container_matches
dead_jobs seen alive running [] = []
dead_jobs seen alive running (job ∷ jobs) =
    let rest = dead_jobs seen alive running jobs in
    if is_dead seen alive running job then job ∷ rest else rest

abbrev pub verdict_of : List (Text × Process) → Verdict
verdict_of [] = record { check = codes "exclusivity"; failure = none }
verdict_of ((uuid, p) ∷ rest) = record {
  check = codes "exclusivity";
  failure = some (record { kind = unauthorised_work; detail = not_placed p.pid uuid });
}

-- The verdict, and the dead jobs of its evidence.
unfoldable pub check :
    List Card → List PlacedJob → List OwnContainer → Option (List ℕ) → Verdict × List PlacedJob
unfolding tally dead_jobs running_names
check gpus jobs ours alive_pids =
    let t = tally gpus jobs ours in
    (verdict_of t.foreign, dead_jobs t.seen_pids alive_pids (running_names ours) jobs)
