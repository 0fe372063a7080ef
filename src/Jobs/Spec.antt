-- ===== src/Jobs/Spec.antt =====
-- The spec of a job, of validator/work/containers.py, and what keeps it from being started. Memory
-- and storage are whole gigabytes, cpus and watts whole numbers. `repr` of a refused value is not
-- written out: a problem carries the value.
use microtensor_compute.Common.{
  ℕ, ◌&&◌, ◌||◌, not, Bool, true, false, List, [], ◌∷◌, ◌++◌, Option, none, some, Dict, map,
  if◌then◌else◌, eqb, ltb, length, any_of, is_empty, contains, is_some,
}
use microtensor_compute.Common.Text.{Text, codes, text_eq, text_instance}
use microtensor_compute.Agent.Updater.{well_formed_digest}
use microtensor_compute.Work.Tiers.{WorkKind, rental, inference}
use microtensor_compute.Work.Rigs.{kind_of}
use microtensor_compute.Jobs.Names.{
  is_job_id, is_env_key, is_uuid, is_size, is_word, split_at, decimal, is_lower, is_digit,
}
use microtensor_compute.Jobs.Volumes.{VolumeSpec, VolumeProblem, volume_problems}

pub record PortMapping : Type 0 where
  pub host : ℕ
  pub container : ℕ
  pub protocol : Text

abbrev pub tcp : Text
tcp = codes "tcp"

unfoldable pub port_token : PortMapping → Text
unfolding decimal text_eq
port_token mapping =
    decimal mapping.host
    ++ codes ":"
    ++ decimal mapping.container
    ++ (if text_eq mapping.protocol tcp then [] else codes "/" ++ mapping.protocol)

pub record JobSpec : Type 0 where
  pub job_id : Text
  pub kind : Text
  pub image : Text
  pub gpu_uuids : List Text
  pub owner : Text
  pub memory_gb : ℕ
  pub cpus : ℕ
  pub storage_gb : ℕ
  pub shm_size : Text
  pub ports : List PortMapping
  pub container_ports : List ℕ
  pub port_range : Text
  pub env : Dict Text Text
  pub command : Text
  pub entrypoint : Text
  pub volumes : List VolumeSpec
  pub whole_node : Bool
  pub devices : List Text
  pub isolation : Bool
  pub power_caps : List (Text × ℕ)
  pub quotas_supported : Bool
  pub workspace_user : Text

abbrev pub container_name : JobSpec → Text
container_name spec = codes "mt-" ++ spec.job_id

abbrev pub is_rental : Option WorkKind → Bool
is_rental (some rental) = true
is_rental _ = false

abbrev pub is_for_customer : Option WorkKind → Bool
is_for_customer (some rental) = true
is_for_customer (some inference) = true
is_for_customer _ = false

unfoldable pub is_sensitive_spec : JobSpec → Bool
unfolding kind_of
is_sensitive_spec spec = is_rental (kind_of spec.kind)

unfoldable pub stop_grace : JobSpec → ℕ
unfolding kind_of
stop_grace spec = if is_for_customer (kind_of spec.kind) then 30 else 15

pub data SpecProblem : Type 0 where
  job_id_refused : Text → SpecProblem
  unknown_work_kind : Text → SpecProblem
  image_not_pinned : Text → SpecProblem
  image_not_allowed : Text → SpecProblem
  no_gpu : SpecProblem
  too_many_gpus : SpecProblem
  malformed_uuid : SpecProblem
  needs_isolation : SpecProblem
  env_refused : Text → SpecProblem
  shm_refused : Text → SpecProblem
  volume_refused : VolumeProblem → SpecProblem
  quota_unenforceable : SpecProblem

-- IMAGE_REF: ^[a-z0-9][a-z0-9._/-]{0,200}@sha256:[0-9a-f]{64}$, whose first part holds no `@`.
abbrev pub is_image_char : ℕ → Bool
is_image_char c = is_lower c || is_digit c || eqb c b'.' || eqb c b'_' || eqb c b'/' || eqb c b'-'

abbrev pub is_pinned : Option (Text × Text) → Bool
is_pinned none = false
is_pinned (some parts) =
    is_word (λ c. is_lower c || is_digit c) is_image_char 200 parts.0 && well_formed_digest parts.1

unfoldable pub is_image_ref : Text → Bool
unfolding split_at is_word well_formed_digest
is_image_ref image = is_pinned (split_at b'@' image)

unfoldable pub image_problems : Text → List Text → List SpecProblem
unfolding is_image_ref contains text_eq
image_problems image allowlist =
    if not (is_image_ref image)
    then image_not_pinned image ∷ []
    else if not (contains image allowlist)
    then image_not_allowed image ∷ []
    else []

unfoldable pub env_problems : Dict Text Text → List SpecProblem
unfolding is_env_key
env_problems [] = []
env_problems ((key, value) ∷ env) =
    (if is_env_key key then [] else env_refused key ∷ []) ++ env_problems env

unfoldable pub all_volume_problems : List VolumeSpec → List SpecProblem
unfolding volume_problems
all_volume_problems [] = []
all_volume_problems (volume ∷ volumes) =
    map volume_refused (volume_problems volume) ++ all_volume_problems volumes

abbrev pub problem_if : Bool → SpecProblem → List SpecProblem
problem_if test problem = if test then problem ∷ [] else []

unfoldable pub spec_problems : List Text → JobSpec → List SpecProblem
unfolding image_problems env_problems all_volume_problems is_uuid is_size kind_of any_of
    is_sensitive_spec
spec_problems allowlist spec =
    problem_if (not (is_job_id spec.job_id)) (job_id_refused spec.job_id)
    ++ problem_if (not (is_some (kind_of spec.kind))) (unknown_work_kind spec.kind)
    ++ image_problems spec.image allowlist
    ++ problem_if (is_empty spec.gpu_uuids) no_gpu
    ++ problem_if (ltb 14 (length spec.gpu_uuids)) too_many_gpus
    ++ problem_if (any_of (λ uuid. not (is_uuid uuid)) spec.gpu_uuids) malformed_uuid
    ++ problem_if (is_sensitive_spec spec && not spec.isolation) needs_isolation
    ++ env_problems spec.env
    ++ problem_if (not (is_size spec.shm_size)) (shm_refused spec.shm_size)
    ++ all_volume_problems spec.volumes
    ++ problem_if (ltb 0 spec.storage_gb && not spec.quotas_supported) quota_unenforceable
