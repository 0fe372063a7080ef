-- ===== src/Jobs/Storage.antt =====
-- The volumes of a rig: create, destroy, list_ours, mounted_volumes and setup_encrypted of
-- validator/storage/volumes.py, and remove_stale_volumes of validator/work/containers.py.
use microtensor_compute.Common.{
  ℕ, ◌&&◌, ◌||◌, Bool, true, false, List, [], ◌∷◌, ◌++◌, Option, none, some, if◌then◌else◌, eqb,
  contains, keep_if, any_of, map,
}
use microtensor_compute.Common.Int.{ℤ, pos, negsuc}
use microtensor_compute.Common.Text.{
  Text, codes, text_eq, text_instance, starts_with, occurs_in, strip, lower, split_words,
}
use microtensor_compute.Jobs.Names.{is_name_char, is_word, chomp}
use microtensor_compute.Jobs.Volumes.{
  VolumeSpec, VolumeProblem, volume_problems, create_command, valid, prefix,
}
use microtensor_compute.Jobs.Devices.{lines_of, pieces}
use microtensor_compute.Jobs.Remote.{
  Host, State, CommandResult, run, succeeded, tail_of, text_or, create_volume, remove_volume,
  list_volumes, list_mounts, write_script, run_script, read_mounts, own_path,
}

pub data VolumeReason : Type 0 where
  refused : VolumeProblem → VolumeReason
  name_not_ours : Text → VolumeReason
  said : Text → VolumeReason
  script_not_delivered : Text → VolumeReason
  data_is_gone : VolumeReason
  mount_failed : Text → VolumeReason
  mount_not_present : VolumeReason

-- `(result.error or result.stderr_tail(n)).strip()`
unfoldable pub complaint : ℕ → CommandResult → Text
unfolding strip tail_of
complaint n result = strip (text_or result.error (tail_of n result.stderr))

abbrev pub said_unless : Bool → VolumeReason → Option VolumeReason
said_unless true reason = none
said_unless false reason = some reason

-- An item of a `docker ps` line that names a volume of ours.
unfoldable pub mounts_in : List Text → List Text
unfolding pieces strip starts_with keep_if
mounts_in [] = []
mounts_in (line ∷ lines) =
    keep_if (starts_with prefix) (map strip (pieces (codes ",") line)) ++ mounts_in lines

-- A line of /proc/mounts that shows the encrypted mount at a path.
abbrev pub shows_mount : Text → List Text → Bool
shows_mount path (device ∷ target ∷ kind ∷ rest) =
    text_eq target path && text_eq kind (codes "fuse.gocryptfs")
shows_mount path _ = false

abbrev pub is_four : ℤ → Bool
is_four (pos n) = eqb n 4
is_four (negsuc n) = false

abbrev pub script_reason : CommandResult → VolumeReason
script_reason ran = if is_four ran.exit_code then data_is_gone else mount_failed (complaint 300 ran)

-- ^[A-Za-z0-9_.:-]{1,64}$
abbrev pub is_user : Text → Bool
is_user user =
    is_word (λ c. is_name_char c || eqb c b':') (λ c. is_name_char c || eqb c b':') 63 (chomp user)

module _ {World : Type 0} (host : Host World) where
  abbrev pub create_checked :
      List VolumeProblem → VolumeSpec → State World → Option VolumeReason × State World
  create_checked (problem ∷ rest) spec s = (some (refused problem), s)
  create_checked [] spec s =
      let (result, after) = run host (create_volume spec.name (create_command spec)) s in
      (said_unless (succeeded result) (said (complaint 300 result)), after)

  unfoldable pub volume_create : VolumeSpec → State World → Option VolumeReason × State World
  unfolding volume_problems run complaint create_command succeeded
  volume_create spec s = create_checked (volume_problems spec) spec s

  abbrev pub is_gone : CommandResult → Bool
  is_gone result = succeeded result || occurs_in (codes "no such volume") (lower result.stderr)

  unfoldable pub volume_destroy : Text → State World → Option VolumeReason × State World
  unfolding valid run complaint succeeded occurs_in
  volume_destroy name s = elim (valid name) [
    | false ↦ (some (name_not_ours name), s)
    | true ↦
        let (result, after) = run host (remove_volume name) s in
        (said_unless (is_gone result) (said (complaint 300 result)), after)
  ]

  unfoldable pub list_ours : State World → List Text × State World
  unfolding run succeeded lines_of keep_if valid strip
  list_ours s =
      let (result, after) = run host list_volumes s in
      ((if succeeded result then keep_if valid (map strip (lines_of result.stdout)) else []), after)

  unfoldable pub mounted_volumes : State World → Option (List Text) × State World
  unfolding run succeeded mounts_in lines_of
  mounted_volumes s =
      let (result, after) = run host list_mounts s in
      ((if succeeded result then some (mounts_in (lines_of result.stdout)) else none), after)

  abbrev pub add_removed : Text → Option VolumeReason → List Text → List Text
  add_removed name none removed = name ∷ removed
  add_removed name (some reason) removed = removed

  -- The loop of remove_stale_volumes, with the names that it returns.
  unfoldable pub remove_unmounted : List Text → List Text → State World → List Text × State World
  unfolding volume_destroy contains text_eq
  remove_unmounted mounted [] s = ([], s)
  remove_unmounted mounted (name ∷ names) s = elim (contains name mounted) [
    | true ↦ remove_unmounted mounted names s
    | false ↦
        let (problem, after) = volume_destroy name s in
        let (removed, final) = remove_unmounted mounted names after in
        (add_removed name problem removed, final)
  ]

  abbrev pub remove_given : List Text → Option (List Text) → State World → List Text × State World
  remove_given ours none s = ([], s)
  remove_given ours (some mounted) s = remove_unmounted mounted ours s

  unfoldable pub remove_stale_volumes : State World → List Text × State World
  unfolding list_ours mounted_volumes remove_unmounted
  remove_stale_volumes s =
      let (ours, listed) = list_ours s in
      let (mounted, looked) = mounted_volumes listed in remove_given ours mounted looked

  unfoldable pub verify_mount : Text → Text → State World → Bool × State World
  unfolding run succeeded any_of lines_of split_words text_eq
  verify_mount container path s =
      let (result, after) = run host (read_mounts container) s in
      (
        succeeded result
            && any_of (λ line. shows_mount path (split_words line)) (lines_of result.stdout),
        after,
      )

  abbrev pub after_script :
      Bool → Text → VolumeSpec → CommandResult → State World → Option VolumeReason × State World
  after_script false container spec ran s = (some (script_reason ran), s)
  after_script true container spec ran s =
      let (shown, looked) = verify_mount container spec.mount_path s in
      (said_unless shown mount_not_present, looked)

  abbrev pub after_delivery :
      Bool → Text → VolumeSpec → CommandResult → State World → Option VolumeReason × State World
  after_delivery false container spec written s =
      (some (script_not_delivered (complaint 200 written)), s)
  after_delivery true container spec written s =
      let (ran, mounted) = run host (run_script container) s in
      after_script (succeeded ran) container spec ran mounted

  -- The passphrase, and the script that unwraps it, are the command's standard input.
  unfoldable pub setup_encrypted :
      Text → VolumeSpec → State World → Option VolumeReason × State World
  unfolding run succeeded verify_mount complaint
  setup_encrypted container spec s =
      let (written, delivered) = run host (write_script container spec.name) s in
      after_delivery (succeeded written) container spec written delivered

  unfoldable pub grant_workspace : Text → Text → Text → State World → Bool × State World
  unfolding run succeeded is_word chomp
  grant_workspace container path user s = elim (is_user user) [
    | false ↦ (false, s)
    | true ↦
        let (result, after) = run host (own_path container user path) s in (succeeded result, after)
  ]
