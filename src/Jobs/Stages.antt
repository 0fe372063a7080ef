-- ===== src/Jobs/Stages.antt =====
-- What the stages of Jobs.Create leave on the rig, by its log, is named by the frame.
use microtensor_compute.Common.{
  ◌≡◌, refl, subst, inl, inr, ◌⊎◌, ◌&&◌, not, Bool, true, false, List, [], ◌∷◌, ◌++◌, Option, none,
  some, if◌then◌else◌, is_empty, is_some, Bool-cases, Option-cases, All, All-append, In,
}
use microtensor_compute.Common.Text.{Text, text_eq, text_eq_sound}
use microtensor_compute.Work.Power.{PowerRecords}
use microtensor_compute.Jobs.Volumes.{
  VolumeSpec, VolumeProblem, name_refused, path_refused, path_is_cipher, cipher_path,
  volume_problems, valid, valid_path,
}
use microtensor_compute.Jobs.Spec.{PortMapping, container_name}
use microtensor_compute.Jobs.Ports.{PortProblem, has_ports, parse_range, reserve, used_ports}
use microtensor_compute.Jobs.Devices.{DeviceProblem}
use microtensor_compute.Jobs.Remote.{
  Host, State, Resource, container, volume, Entry, is_left, run, pull, list_ports, probe_devices,
  remove_container,
}
use microtensor_compute.Jobs.Storage.{VolumeReason, volume_create, setup_encrypted}
use microtensor_compute.Jobs.Launch.{wait_running}
use microtensor_compute.Jobs.Effects.{
  Shrinks, run-Shrinks, remove_stale_volumes-Shrinks, setup_encrypted-Shrinks,
  grant_workspace-Shrinks, volume_create_lem, volume_create_accepts, IsMade,
}
use microtensor_compute.Jobs.Waiting.{wait_running-Shrinks, diagnostics-Shrinks}
use microtensor_compute.Jobs.Create.{
  reserve_stage, with_reserved, pull_stage, cleanup_stage, make_volumes, device_stage, with_nodes,
  probe_nodes, power_stage, cap_with, running_stage, mount_encrypted, after_mount,
}
use microtensor_compute.Jobs.Frames.{Frame, Point, Stage, ◌then◌}

-- What the frame names.
abbrev pub Owns : Frame → Resource → Type 0
Owns f (container name) = (f.launched ≡ true) × (text_eq (container_name f.spec) name ≡ true)
Owns f (volume name) = In name f.created_volumes

-- All that is left on the rig was left before, or the frame names it; the volumes that it names are
-- ones that may be removed.
pub record Covers {World : Type 0} (before : List Entry) (launched : Bool) (p : Point World)
    : Type 0 where
  pub left : (x : Resource) → is_left x p.1.log ≡ true → (is_left x before ≡ true) ⊎ Owns p.0 x
  pub valid_names : All (λ name. valid name ≡ true) p.0.created_volumes
  pub phase : p.0.launched ≡ launched

In-append_left : (a : Text) (xs ys : List Text) → In a xs → In a (xs ++ ys)
In-append_left a [] ys i = absurd i
In-append_left a (x ∷ xs) ys (inl e) = inl e
In-append_left a (x ∷ xs) ys (inr i) = inr (In-append_left a xs ys i)

In-append_last : (a : Text) (xs : List Text) → In a (xs ++ a ∷ [])
In-append_last a [] = inl refl
In-append_last a (x ∷ xs) = inr (In-append_last a xs)

no_problems_valid : (spec : VolumeSpec) → volume_problems spec ≡ [] → valid spec.name ≡ true
unfolding volume_problems
no_problems_valid spec h =
    first_empty (valid spec.name) (name_refused spec.name)
      (if valid_path spec.mount_path then [] else path_refused spec.mount_path ∷ [])
      (if spec.encrypted && text_eq spec.mount_path cipher_path then path_is_cipher ∷ [] else []) h
  where
    first_empty :
        (ok : Bool) (problem : VolumeProblem) (second third : List VolumeProblem)
        → ((if ok then [] else problem ∷ []) ++ second ++ third) ≡ []
        → ok ≡ true
    first_empty true problem second third h = refl
    first_empty false problem second third h = absurd (cc h)

made_owned :
    (problem : Option VolumeReason) (spec : VolumeSpec) (f : Frame) (x : Resource)
    → problem ≡ none
    → IsMade problem spec x
    → Owns (record f { created_volumes = f.created_volumes ++ spec.name ∷ [] }) x
made_owned (some reason) spec f x e m = absurd m
made_owned none spec f (container name) e m = absurd (cc m.0)
made_owned none spec f (volume name) e m =
    subst (λ n. In n (f.created_volumes ++ spec.name ∷ [])) (text_eq_sound spec.name name m.0)
      (In-append_last spec.name f.created_volumes)

owned_still :
    (f : Frame) (name : Text) (x : Resource)
    → Owns f x
    → Owns (record f { created_volumes = f.created_volumes ++ name ∷ [] }) x
owned_still f name (container other) o = o
owned_still f name (volume other) o = In-append_left other f.created_volumes (name ∷ []) o

module _ {World : Type 0} (host : Host World) (before : List Entry) where
  abbrev pub Stays : Bool → Stage World → Type 0
  Stays launched stage =
      (p : Point World) → Covers before launched p → Covers before launched (stage p).1

  pub Covers-shrink :
      (launched : Bool) (f : Frame) (s t : State World)
      → Shrinks s.log t.log
      → Covers before launched (f, s)
      → Covers before launched (f, t)
  Covers-shrink launched f s t shrinks c = record {
    left = λ x h. c.left x (shrinks x h);
    valid_names = c.valid_names;
    phase = c.phase;
  }

  pub reserved-Stays :
      (launched : Bool) (reserved : List PortMapping × Option PortProblem)
      → Stays launched (with_reserved host reserved)
  reserved-Stays launched (ports, some problem) p c = c
  reserved-Stays launched (ports, none) (f, s) c = record {
    left = c.left;
    valid_names = c.valid_names;
    phase = c.phase;
  }

  pub reserve_stage-Stays : (launched : Bool) → Stays launched (reserve_stage host)
  unfolding reserve_stage
  reserve_stage-Stays launched (f, s) c =
      elim (Bool-cases (not (has_ports f.spec) && is_some (parse_range f.spec.port_range))) [
        | inr e ↦ rw (e, reserve_stage) (reserved-Stays launched (reserve f.spec []) (f, s) c)
        | inl e ↦
            let ran = run host list_ports s in
            rw (e, reserve_stage)
              (reserved-Stays launched (reserve f.spec (used_ports ran.0.stdout)) (f, ran.1)
                (Covers-shrink launched f s ran.1 (run-Shrinks host list_ports s (λ x. refl)) c))
      ]

  pub pull_stage-Stays : (launched : Bool) → Stays launched (pull_stage host)
  unfolding pull_stage
  pull_stage-Stays launched (f, s) c =
      Covers-shrink launched f s _ (run-Shrinks host (pull f.spec.image) s (λ x. refl)) c

  pub cleanup_stage-Stays : (launched : Bool) → Stays launched (cleanup_stage host)
  unfolding cleanup_stage
  cleanup_stage-Stays launched (f, s) c =
      let cleared = (run host (remove_container (container_name f.spec)) s).1 in
      Covers-shrink launched f cleared _ (remove_stale_volumes-Shrinks host cleared) (
        Covers-shrink launched f s cleared
          (run-Shrinks host (remove_container (container_name f.spec)) s (λ x. refl)) c)

  volume_made-Covers :
      (launched : Bool) (spec : VolumeSpec) (f : Frame) (s : State World)
      → (volume_create host spec s).0 ≡ none
      → Covers before launched (f, s)
      → Covers before launched (
        record f { created_volumes = f.created_volumes ++ spec.name ∷ [] },
        (volume_create host spec s).1,
      )
  volume_made-Covers launched spec f s e c = record {
    left = λ x h. elim (volume_create_lem host spec s x h) [
      | inl m ↦ inr (made_owned (volume_create host spec s).0 spec f x e m)
      | inr k ↦ elim (c.left x k) [ inl b ↦ inl b | inr o ↦ inr (owned_still f spec.name x o) ]
    ];
    valid_names =
        All-append (λ name. valid name ≡ true) f.created_volumes (spec.name ∷ []) c.valid_names
          (no_problems_valid spec (volume_create_accepts host spec s e), tt);
    phase = c.phase;
  }

  volume_not_made-Covers :
      (launched : Bool) (spec : VolumeSpec) (f : Frame) (s : State World) (reason : VolumeReason)
      → (volume_create host spec s).0 ≡ some reason
      → Covers before launched (f, s)
      → Covers before launched (f, (volume_create host spec s).1)
  volume_not_made-Covers launched spec f s reason e c =
      Covers-shrink launched f s _
        (λ x h. elim (volume_create_lem host spec s x h) [
          | inl m ↦ absurd (subst (λ o. IsMade o spec x) e m)
          | inr k ↦ k
        ])
        c

  pub make_volumes-Stays :
      (launched : Bool) (specs : List VolumeSpec) → Stays launched (make_volumes host specs)
  unfolding make_volumes
  make_volumes-Stays launched [] p c = c
  make_volumes-Stays launched (spec ∷ rest) (f, s) c = elim (Bool-cases spec.create) [
    | inr e ↦ rw (e, make_volumes) (make_volumes-Stays launched rest (f, s) c)
    | inl e ↦ elim (Option-cases (volume_create host spec s).0) [
      | inl n ↦
          rw (e, n, make_volumes)
            (make_volumes-Stays launched rest
              (
                record f { created_volumes = f.created_volumes ++ spec.name ∷ [] },
                (volume_create host spec s).1,
              )
              (volume_made-Covers launched spec f s n c))
      | inr (reason, n) ↦
          rw (e, n, make_volumes) (volume_not_made-Covers launched spec f s reason n c)
    ]
  ]

  pub nodes-Stays :
      (launched : Bool) (found : List Text × Option DeviceProblem)
      → Stays launched (with_nodes host found)
  nodes-Stays launched (nodes, some problem) p c = c
  nodes-Stays launched (nodes, none) (f, s) c = record {
    left = c.left;
    valid_names = c.valid_names;
    phase = c.phase;
  }

  pub device_stage-Stays : (launched : Bool) → Stays launched (device_stage host)
  unfolding device_stage
  device_stage-Stays launched (f, s) c =
      let ran = run host probe_devices s in
      nodes-Stays launched (probe_nodes host f.spec ran.0) (f, ran.1)
        (Covers-shrink launched f s ran.1 (run-Shrinks host probe_devices s (λ x. refl)) c)

  pub cap_with-Stays :
      (launched : Bool) (records : Option PowerRecords) → Stays launched (cap_with host records)
  cap_with-Stays launched none p c = c
  cap_with-Stays launched (some records) (f, s) c = record {
    left = c.left;
    valid_names = c.valid_names;
    phase = c.phase;
  }

  pub power_stage-Stays : (launched : Bool) → Stays launched (power_stage host)
  unfolding power_stage
  power_stage-Stays launched (f, s) c = elim (Bool-cases (is_empty f.spec.power_caps)) [
    | inl e ↦ rw (e, power_stage) c
    | inr e ↦ rw (e, power_stage) (cap_with-Stays launched s.records (f, s) c)
  ]

  pub running_stage-Stays : (launched : Bool) → Stays launched (running_stage host)
  unfolding running_stage
  running_stage-Stays launched (f, s) c =
      let waited = wait_running host (container_name f.spec) s in
      let d : Covers before launched (f, waited.1) =
        Covers-shrink launched f s waited.1 (wait_running-Shrinks host (container_name f.spec) s)
          c in
      elim (Option-cases waited.0) [
        | inl e ↦ rw (e, running_stage) d
        | inr (reason, e) ↦
            rw (e, running_stage)
              (Covers-shrink launched f waited.1 _
                (diagnostics-Shrinks host (container_name f.spec) waited.1) d)
      ]

  after_mount-Covers :
      (launched : Bool) (f : Frame) (spec : VolumeSpec) (s : State World)
      → Covers before launched (f, s)
      → Covers before launched (f, after_mount host f spec s)
  after_mount-Covers launched f spec s c = elim (Bool-cases (is_empty f.spec.workspace_user)) [
    | inl e ↦ rw e c
    | inr e ↦ rw e (
        Covers-shrink launched f s _
          (grant_workspace-Shrinks host (container_name f.spec) spec.mount_path
            f.spec.workspace_user s)
          c)
  ]

  pub mount_encrypted-Stays :
      (launched : Bool) (specs : List VolumeSpec) → Stays launched (mount_encrypted host specs)
  unfolding mount_encrypted
  mount_encrypted-Stays launched [] p c = c
  mount_encrypted-Stays launched (spec ∷ rest) (f, s) c =
      let setup = setup_encrypted host (container_name f.spec) spec s in
      let d : Covers before launched (f, setup.1) =
        Covers-shrink launched f s setup.1
          (setup_encrypted-Shrinks host (container_name f.spec) spec s) c in
      elim (Bool-cases spec.encrypted) [
        | inr e ↦ rw (e, mount_encrypted) (mount_encrypted-Stays launched rest (f, s) c)
        | inl e ↦ elim (Option-cases setup.0) [
          | inl n ↦
              rw (e, n, mount_encrypted)
                (mount_encrypted-Stays launched rest (f, after_mount host f spec setup.1)
                  (after_mount-Covers launched f spec setup.1 d))
          | inr (reason, n) ↦
              rw (e, n, mount_encrypted)
                (Covers-shrink launched f setup.1 _
                  (diagnostics-Shrinks host (container_name f.spec) setup.1) d)
        ]
      ]
