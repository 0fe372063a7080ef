-- ===== src/Jobs/Rollback.antt =====
-- create of Jobs.Create undoes what it did: whatever the body made is in the frame (Jobs.Stages),
-- and the rollback removes what the frame names.
use microtensor_compute.Common.{
  ◌≡◌, refl, sym, subst, inl, inr, Bool, true, false, List, [], ◌∷◌, Option, none, some, is_empty,
  arith, Bool-cases, All, In,
}
use microtensor_compute.Common.Text.{Text, text_eq, text_eq_refl}
use microtensor_compute.Work.Power.{PowerRecords}
use microtensor_compute.Jobs.Volumes.{valid}
use microtensor_compute.Jobs.Spec.{JobSpec, container_name}
use microtensor_compute.Jobs.Remote.{
  Host, State, Resource, container, volume, Entry, is_left, removes, run, remove_with_volumes,
  wedge_sweep, remove_volume,
}
use microtensor_compute.Jobs.Storage.{volume_destroy}
use microtensor_compute.Jobs.Effects.{Shrinks, is_left_quiet, run-Shrinks, volume_destroy_lem}
use microtensor_compute.Jobs.Create.{
  create_body, destroy_volumes, restored, removed_if, rollback, settle, create,
}
use microtensor_compute.Jobs.Frames.{
  CreateResult, Frame, Point, forget_if, is_marked, has_effects, new_frame, started,
}
use microtensor_compute.Jobs.Stages.{Owns, Covers}
use microtensor_compute.Jobs.Accounting.{create_body-Ends}

module _ {World : Type 0} (host : Host World) where
  removed_if_lem :
      (launched : Bool) (name : Text) (s : State World) (x : Resource)
      → is_left x (removed_if host launched name s).log ≡ true
      → (is_left x s.log ≡ true)
        × ((launched ≡ true) → removes (remove_with_volumes name) x ≡ false)
  unfolding run
  removed_if_lem false name s x h = (h, λ e. absurd (cc e))
  removed_if_lem true name s x h =
      let k = is_left_quiet x (remove_with_volumes name) _ s.log refl h in (k.1, λ e. k.0)

  pub restored-log :
      (capped : Bool) (job_id : Text) (records : Option PowerRecords) (s : State World)
      → (restored host capped job_id records s).log ≡ s.log
  restored-log true job_id (some records) s = refl
  restored-log true job_id none s = refl
  restored-log false job_id records s = refl

  pub destroy_volumes_lem :
      (names : List Text) (s : State World) (x : Resource)
      → All (λ name. valid name ≡ true) names
      → is_left x (destroy_volumes host names s).log ≡ true
      → (is_left x s.log ≡ true) × All (λ name. removes (remove_volume name) x ≡ false) names
  unfolding destroy_volumes
  destroy_volumes_lem [] s x v h = (h, tt)
  destroy_volumes_lem (name ∷ names) s x v h =
      let later = destroy_volumes_lem names (volume_destroy host name s).1 x v.1 h in
      let now = volume_destroy_lem host name s x v.0 later.0 in (now.1, (now.0, later.1))

  -- A resource that the frame names is not left by commands that remove all that it names.
  not_owned_removed :
      (f : Frame) (x : Resource)
      → ((f.launched ≡ true) → removes (remove_with_volumes (container_name f.spec)) x ≡ false)
      → All (λ name. removes (remove_volume name) x ≡ false) f.created_volumes
      → Owns f x
      → ⊥
  not_owned_removed f (container name) c v o = cc (c o.0, o.1)
  not_owned_removed f (volume name) c v o = not_in f.created_volumes v o
    where
      not_in :
          (names : List Text)
          → All (λ other. removes (remove_volume other) (volume name) ≡ false) names
          → In name names
          → ⊥
      not_in [] a i = i
      not_in (other ∷ names) a (inl e) =
          cc (subst (λ n. text_eq n name ≡ false) (sym e) a.0, text_eq_refl name)
      not_in (other ∷ names) a (inr i) = not_in names a.1 i

  rollback-Shrinks :
      (before : List Entry) (launched : Bool) (p : Point World)
      → Covers before launched p
      → Shrinks before (rollback host p).log
  unfolding rollback
  rollback-Shrinks before launched (f, s) c x h =
      let gone = removed_if host f.launched (container_name f.spec) s in
      let cooled = restored host f.capped f.spec.job_id gone.records gone in
      let volumes = destroy_volumes_lem f.created_volumes cooled x c.valid_names (
        run-Shrinks host wedge_sweep (destroy_volumes host f.created_volumes cooled) (λ y. refl) x
          h) in
      let container = removed_if_lem f.launched (container_name f.spec) s x (
        subst (λ l. is_left x l ≡ true) (restored-log f.capped f.spec.job_id gone.records gone)
          volumes.0) in
      elim (c.left x container.0) [
        | inl b ↦ b
        | inr o ↦ absurd (not_owned_removed f x container.1 volumes.1 o)
      ]

  -- Without effects the frame names nothing.
  no_effects : (f : Frame) (x : Resource) → has_effects f ≡ false → Owns f x → ⊥
  no_effects f (container name) h o = ground (arith, h, o)
  no_effects f (volume name) h o = none_in f.created_volumes (ground (arith, h)) o
    where
      none_in : (names : List Text) → is_empty names ≡ true → In name names → ⊥
      none_in [] e i = i
      none_in (other ∷ names) e i = cc e

  forget_if-log :
      (cancelled : Bool) (job_id : Text) (s : State World)
      → (forget_if cancelled job_id s).log ≡ s.log
  forget_if-log true job_id s = refl
  forget_if-log false job_id s = refl

  settle-Shrinks :
      (before : List Entry) (launched : Bool) (result : CreateResult) (p : Point World)
      → result.ok ≡ false
      → Covers before launched p
      → Shrinks before (settle host result p).log
  unfolding settle
  settle-Shrinks before launched result (f, s) fails c = elim (Bool-cases (has_effects f)) [
    | inl e ↦
        rw (fails, e, settle)
          (λ x h.
            rollback-Shrinks before launched (f, s) c x
              (subst (λ l. is_left x l ≡ true)
                (forget_if-log (is_marked f.spec.job_id s) f.spec.job_id (rollback host (f, s))) h))
    | inr e ↦
        rw (fails, e, settle)
          (λ x h. elim (c.left x h) [ inl b ↦ b | inr o ↦ absurd (no_effects f x e o) ])
  ]

  -- Whatever the rig answers and whoever cancels the job, a create that does not succeed leaves no
  -- container and no volume on the rig that was not there before: each that it was told it made is
  -- told to be removed afterwards.
  pub create_undone :
      (allowlist : List Text) (rig_id : Text) (spec : JobSpec) (s : State World) (x : Resource)
      → (create host allowlist rig_id spec s).0.ok ≡ false
      → is_left x (create host allowlist rig_id spec s).1.1.log ≡ true
      → is_left x s.log ≡ true
  unfolding create
  create_undone allowlist rig_id spec s x fails h =
      let start : Point World = (new_frame spec, started spec.job_id s) in
      let body = create_body host allowlist rig_id start in
      elim (create_body-Ends host s.log allowlist rig_id start
        (record { left = λ x h. inl h; valid_names = tt; phase = refl })) [
          | inl c ↦ settle-Shrinks s.log false body.0 body.1 fails c x h
          | inr c ↦ settle-Shrinks s.log true body.0 body.1 fails c x h
        ]
