-- ===== src/Jobs/Effects.antt =====
-- What the operations of Jobs.Storage and Jobs.Launch leave on the rig, by its log: those that only
-- look, or remove, leave nothing that was not there.
use microtensor_compute.Common.{
  ◌≡◌, refl, inl, inr, ◌⊎◌, ◌&&◌, Bool, true, false, List, [], ◌∷◌, Option, none, some,
  if◌then◌else◌, contains, arith, Bool-cases,
}
use microtensor_compute.Common.Text.{Text, text_instance}
use microtensor_compute.Jobs.Volumes.{
  VolumeSpec, VolumeProblem, volume_problems, create_command, valid,
}
use microtensor_compute.Jobs.Remote.{
  Host, State, Command, CommandResult, Resource, container, volume, Entry, makes, removes, is_left,
  run, succeeded, list_volumes, list_mounts, remove_volume, write_script, run_script, read_mounts,
  own_path, create_volume,
}
use microtensor_compute.Jobs.Storage.{
  VolumeReason, volume_create, volume_destroy, list_ours, mounted_volumes, remove_unmounted,
  remove_stale_volumes, setup_encrypted, verify_mount, grant_workspace, is_user, remove_given,
  after_script, after_delivery, said_unless, create_checked, complaint, said,
}

-- What the later log leaves was left before.
abbrev pub Shrinks : List Entry → List Entry → Type 0
Shrinks before after = (x : Resource) → is_left x after ≡ true → is_left x before ≡ true

-- One step of the log, on the Boolean values that decide it.
step_left :
    (made done gone before : Bool)
    → (if made && done then true else if gone then false else before) ≡ true
    → ((made ≡ true) × (done ≡ true)) ⊎ ((gone ≡ false) × (before ≡ true))
step_left made done gone before h = ground arith

pub is_left_step :
    (x : Resource) (command : Command) (result : CommandResult) (older : List Entry)
    → is_left x ((command, result) ∷ older) ≡ true
    → ((makes command x ≡ true) × (succeeded result ≡ true))
      ⊎ ((removes command x ≡ false) × (is_left x older ≡ true))
unfolding is_left
is_left_step x command result older h =
    step_left (makes command x) (succeeded result) (removes command x) (is_left x older) h

pub is_left_quiet :
    (x : Resource) (command : Command) (result : CommandResult) (older : List Entry)
    → makes command x ≡ false
    → is_left x ((command, result) ∷ older) ≡ true
    → (removes command x ≡ false) × (is_left x older ≡ true)
is_left_quiet x command result older quiet h = elim (is_left_step x command result older h) [
  | inl m ↦ absurd (cc (quiet, m.0))
  | inr k ↦ k
]

-- What creating a volume leaves is the volume, where it succeeded, and what was left before.
abbrev pub IsMade : Option VolumeReason → VolumeSpec → Resource → Type 0
IsMade none spec x = (makes (create_volume spec.name []) x ≡ true) × (volume_problems spec ≡ [])
IsMade (some reason) spec x = ⊥

said_unless-IsMade :
    (ok : Bool) (reason : VolumeReason) (spec : VolumeSpec) (x : Resource)
    → ok ≡ true
    → makes (create_volume spec.name []) x ≡ true
    → volume_problems spec ≡ []
    → IsMade (said_unless ok reason) spec x
said_unless-IsMade true reason spec x h m p = (m, p)
said_unless-IsMade false reason spec x h m p = absurd (cc h)

module _ {World : Type 0} (host : Host World) where
  pub run-Shrinks :
      (command : Command) (s : State World)
      → ((x : Resource) → makes command x ≡ false)
      → Shrinks s.log (run host command s).1.log
  unfolding run
  run-Shrinks command s quiet x h = (is_left_quiet x command _ s.log (quiet x) h).1

  pub volume_destroy-Shrinks :
      (name : Text) (s : State World) → Shrinks s.log (volume_destroy host name s).1.log
  unfolding volume_destroy
  volume_destroy-Shrinks name s = elim (Bool-cases (valid name)) [
    | inl e ↦ rw e (run-Shrinks (remove_volume name) s (λ x. refl))
    | inr e ↦ rw e (λ x h. h)
  ]

  remove_unmounted-Shrinks :
      (mounted names : List Text) (s : State World)
      → Shrinks s.log (remove_unmounted host mounted names s).1.log
  unfolding remove_unmounted
  remove_unmounted-Shrinks mounted [] s = λ x h. h
  remove_unmounted-Shrinks mounted (name ∷ names) s = elim (Bool-cases (contains name mounted)) [
    | inl e ↦ rw (e, remove_unmounted) (remove_unmounted-Shrinks mounted names s)
    | inr e ↦
        rw (e, remove_unmounted)
          (λ x h.
            volume_destroy-Shrinks name s x
              (remove_unmounted-Shrinks mounted names (volume_destroy host name s).1 x h))
  ]

  list_ours-Shrinks : (s : State World) → Shrinks s.log (list_ours host s).1.log
  unfolding list_ours
  list_ours-Shrinks s = run-Shrinks list_volumes s (λ x. refl)

  mounted_volumes-Shrinks : (s : State World) → Shrinks s.log (mounted_volumes host s).1.log
  unfolding mounted_volumes
  mounted_volumes-Shrinks s = run-Shrinks list_mounts s (λ x. refl)

  remove_given-Shrinks :
      (ours : List Text) (mounted : Option (List Text)) (s : State World)
      → Shrinks s.log (remove_given host ours mounted s).1.log
  remove_given-Shrinks ours none s = λ x h. h
  remove_given-Shrinks ours (some mounted) s = remove_unmounted-Shrinks mounted ours s

  pub remove_stale_volumes-Shrinks :
      (s : State World) → Shrinks s.log (remove_stale_volumes host s).1.log
  unfolding remove_stale_volumes
  remove_stale_volumes-Shrinks s x h =
      let listed = (list_ours host s).1 in
      let looked = (mounted_volumes host listed).1 in
      list_ours-Shrinks s x (
        mounted_volumes-Shrinks listed x
          (remove_given-Shrinks (list_ours host s).0 (mounted_volumes host listed).0 looked x h))

  verify_mount-Shrinks :
      (name path : Text) (s : State World) → Shrinks s.log (verify_mount host name path s).1.log
  unfolding verify_mount
  verify_mount-Shrinks name path s = run-Shrinks (read_mounts name) s (λ x. refl)

  after_script-Shrinks :
      (ok : Bool) (name : Text) (spec : VolumeSpec) (ran : CommandResult) (s : State World)
      → Shrinks s.log (after_script host ok name spec ran s).1.log
  after_script-Shrinks false name spec ran s = λ x h. h
  after_script-Shrinks true name spec ran s = verify_mount-Shrinks name spec.mount_path s

  after_delivery-Shrinks :
      (ok : Bool) (name : Text) (spec : VolumeSpec) (written : CommandResult) (s : State World)
      → Shrinks s.log (after_delivery host ok name spec written s).1.log
  after_delivery-Shrinks false name spec written s = λ x h. h
  after_delivery-Shrinks true name spec written s = λ x h.
      let ran = run host (run_script name) s in
      run-Shrinks (run_script name) s (λ y. refl) x
        (after_script-Shrinks (succeeded ran.0) name spec ran.0 ran.1 x h)

  pub setup_encrypted-Shrinks :
      (name : Text) (spec : VolumeSpec) (s : State World)
      → Shrinks s.log (setup_encrypted host name spec s).1.log
  unfolding setup_encrypted
  setup_encrypted-Shrinks name spec s x h =
      let written = run host (write_script name spec.name) s in
      run-Shrinks (write_script name spec.name) s (λ y. refl) x
        (after_delivery-Shrinks (succeeded written.0) name spec written.0 written.1 x h)

  pub grant_workspace-Shrinks :
      (name path user : Text) (s : State World)
      → Shrinks s.log (grant_workspace host name path user s).1.log
  unfolding grant_workspace
  grant_workspace-Shrinks name path user s = elim (Bool-cases (is_user user)) [
    | inl e ↦ rw (e, grant_workspace) (run-Shrinks (own_path name user path) s (λ x. refl))
    | inr e ↦ rw (e, grant_workspace) (λ x h. h)
  ]

  -- A volume of ours that was asked to be removed is not left.
  pub volume_destroy_lem :
      (name : Text) (s : State World) (x : Resource)
      → valid name ≡ true
      → is_left x (volume_destroy host name s).1.log ≡ true
      → (removes (remove_volume name) x ≡ false) × (is_left x s.log ≡ true)
  unfolding volume_destroy run
  volume_destroy_lem name s x v =
      rw (v, volume_destroy)
        (λ h.
          is_left_quiet x (remove_volume name) (host.answer (remove_volume name) s.world).0 s.log
            refl h)

  create_checked_lem :
      (problems : List VolumeProblem) (spec : VolumeSpec) (s : State World) (x : Resource)
      → volume_problems spec ≡ problems
      → is_left x (create_checked host problems spec s).1.log ≡ true
      → IsMade (create_checked host problems spec s).0 spec x ⊎ (is_left x s.log ≡ true)
  unfolding run
  create_checked_lem (problem ∷ rest) spec s x e h = inr h
  create_checked_lem [] spec s x e h =
      let result = (host.answer (create_volume spec.name (create_command spec)) s.world).0 in
      elim (is_left_step x (create_volume spec.name (create_command spec)) result s.log h) [
        | inl m ↦ inl (
            said_unless-IsMade (succeeded result) (said (complaint 300 result)) spec x m.1
              (made_alike x m.0) e)
        | inr k ↦ inr k.1
      ]
    where
      made_alike :
          (x : Resource)
          → makes (create_volume spec.name (create_command spec)) x ≡ true
          → makes (create_volume spec.name []) x ≡ true
      made_alike (container name) m = m
      made_alike (volume name) m = m

  pub volume_create_lem :
      (spec : VolumeSpec) (s : State World) (x : Resource)
      → is_left x (volume_create host spec s).1.log ≡ true
      → IsMade (volume_create host spec s).0 spec x ⊎ (is_left x s.log ≡ true)
  unfolding volume_create
  volume_create_lem spec s x h = create_checked_lem (volume_problems spec) spec s x refl h

  create_checked_refuses :
      (problems : List VolumeProblem) (spec : VolumeSpec) (s : State World)
      → (create_checked host problems spec s).0 ≡ none
      → problems ≡ []
  create_checked_refuses [] spec s h = refl
  create_checked_refuses (problem ∷ rest) spec s h = absurd (cc h)

  pub volume_create_accepts :
      (spec : VolumeSpec) (s : State World)
      → (volume_create host spec s).0 ≡ none
      → volume_problems spec ≡ []
  unfolding volume_create
  volume_create_accepts spec s h = create_checked_refuses (volume_problems spec) spec s h
