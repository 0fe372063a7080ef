-- ===== src/Jobs/Volumes.antt =====
-- validator/storage/volumes.py: the spec of a volume, the names and paths that are accepted, and
-- the arguments that mount it. Sizes are whole gigabytes.
use microtensor_compute.Common.{
  ℕ, ◌+◌, ◌/◌, min, max, ◌&&◌, ◌||◌, not, Bool, false, List, [], ◌∷◌, ◌++◌, if◌then◌else◌, eqb, leb,
  ltb, length, drop, all_of, is_empty,
}
use microtensor_compute.Common.Text.{Text, codes, text_eq, starts_with, occurs_in}
use microtensor_compute.Jobs.Names.{chomp, is_alnum, is_name, decimal}

pub record VolumeSpec : Type 0 where
  pub name : Text
  pub mount_path : Text
  pub size_gb : ℕ
  pub driver : Text
  pub sparse : Bool
  pub encrypted : Bool
  pub create : Bool

abbrev pub prefix : Text
prefix = codes "mt-vol-"

abbrev pub cipher_path : Text
cipher_path = codes "/mnt/mt-cipher"

unfoldable pub valid : Text → Bool
unfolding starts_with is_name
valid name = starts_with prefix name && is_name 60 (drop 7 name)

-- MOUNT_PATH: ^/[A-Za-z0-9_./-]{1,200}$
abbrev pub is_path_char : ℕ → Bool
is_path_char c = is_alnum c || eqb c b'_' || eqb c b'.' || eqb c b'/' || eqb c b'-'

abbrev pub is_path : Text → Bool
is_path [] = false
is_path (c ∷ cs) = eqb c b'/' && all_of is_path_char cs && leb 1 (length cs) && leb (length cs) 200

unfoldable pub valid_path : Text → Bool
unfolding chomp all_of occurs_in
valid_path path = is_path (chomp path) && not (occurs_in (codes "..") path)

pub data VolumeProblem : Type 0 where
  name_refused : Text → VolumeProblem
  path_refused : Text → VolumeProblem
  path_is_cipher : VolumeProblem

unfoldable pub volume_problems : VolumeSpec → List VolumeProblem
unfolding valid valid_path text_eq
volume_problems spec =
    (if valid spec.name then [] else name_refused spec.name ∷ [])
    ++ (if valid_path spec.mount_path then [] else path_refused spec.mount_path ∷ [])
    ++ (if spec.encrypted && text_eq spec.mount_path cipher_path then path_is_cipher ∷ [] else [])

unfoldable pub container_target : VolumeSpec → Text
container_target spec = if spec.encrypted then cipher_path else spec.mount_path

-- `require` and `require_path` of `mount_args` raise on what `problems` has refused before.
unfoldable pub mount_args : VolumeSpec → List Text
unfolding container_target
mount_args spec =
    codes "-v"
    ∷ (spec.name ++ codes ":" ++ container_target spec)
    ∷ (if spec.encrypted then codes "--device" ∷ codes "/dev/fuse" ∷ [] else [])

-- The arguments of `docker volume create`.
unfoldable pub create_command : VolumeSpec → List Text
unfolding decimal
create_command spec =
    codes "docker" ∷ codes "volume" ∷ codes "create" ∷ codes "--name" ∷ spec.name ∷ []
    ++ (if is_empty spec.driver
        then []
        else codes "--driver"
            ∷ spec.driver
            ∷ (if ltb 0 spec.size_gb
                then codes "--opt"
                  ∷ (codes "size=" ++ decimal (max 1 spec.size_gb) ++ codes "G")
                  ∷ []
                else [])
          ++ (if spec.sparse then codes "--opt" ∷ codes "sparse=true" ∷ [] else []))
    ++ codes "--label" ∷ codes "mt.owner=validator" ∷ []

-- In seconds; `math.ceil(size_gb / 10.0)`.
unfoldable pub create_timeout : ℕ → ℕ
create_timeout size_gb = if leb size_gb 100 then 10 else min 180 (30 + (size_gb + 9) / 10)
