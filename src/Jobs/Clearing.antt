-- ===== src/Jobs/Clearing.antt =====
-- What Jobs.Teardown and the removal of stale volumes tell the rig to remove, and what they then
-- say.
use microtensor_compute.Common.{
  ℕ, ◌≡◌, refl, sym, subst, inl, inr, true, false, List, [], ◌∷◌, Option, none, some, contains,
  keep_if-Holds, map, Bool-cases, All,
}
use microtensor_compute.Common.Text.{
  Text, text_eq, text_eq_sound, text_eq_refl, text_instance, strip,
}
use microtensor_compute.Jobs.Volumes.{valid}
use microtensor_compute.Jobs.Remote.{
  Host, State, Resource, volume, is_left, removes, run, succeeded, list_volumes, remove_volume,
  remove_with_volumes, stop_container,
}
use microtensor_compute.Jobs.Devices.{lines_of}
use microtensor_compute.Jobs.Storage.{
  VolumeReason, add_removed, volume_destroy, list_ours, mounted_volumes, remove_unmounted,
  remove_given, remove_stale_volumes,
}
use microtensor_compute.Jobs.Effects.{volume_destroy_lem}
use microtensor_compute.Jobs.Tidying.{said_mounts}
use microtensor_compute.Jobs.Teardown.{Extras, is_removed}

module _ {World : Type 0} (host : Host World) where
  -- Once a volume is not left, the rest of the loop does not bring it back.
  remove_unmounted_lem :
      (mounted names : List Text) (s : State World) (name : Text)
      → All (λ n. valid n ≡ true) names
      → is_left (volume name) (remove_unmounted host mounted names s).1.log ≡ true
      → (is_left (volume name) s.log ≡ true)
        × ((contains name mounted ≡ false) → contains name names ≡ false)
  unfolding remove_unmounted contains
  remove_unmounted_lem mounted [] s name v = λ h. (h, λ c. refl)
  remove_unmounted_lem mounted (first ∷ names) s name v =
      elim (Bool-cases (contains first mounted)) [
        | inl e ↦
            rw (e, remove_unmounted)
              (λ h.
                let k = remove_unmounted_lem mounted names s name v.1 h in
                (k.0, λ c. not_first name first mounted names e c (k.1 c)))
        | inr e ↦
            rw (e, remove_unmounted)
              (λ h.
                let k =
                  remove_unmounted_lem mounted names (volume_destroy host first s).1 name v.1 h in
                let d = volume_destroy_lem host first s (volume name) v.0 k.0 in
                (d.1, λ c. other_first name first names d.0 (k.1 c)))
      ]
    where
      not_first :
          (name first : Text) (mounted names : List Text)
          → contains first mounted ≡ true
          → contains name mounted ≡ false
          → contains name names ≡ false
          → contains name (first ∷ names) ≡ false
      not_first name first mounted names e c r = elim (Bool-cases (text_eq name first)) [
        | inr d ↦ rw d r
        | inl d ↦
            absurd (cc (subst (λ t. contains t mounted ≡ false) (text_eq_sound name first d) c, e))
      ]

      other_first :
          (name first : Text) (names : List Text)
          → text_eq first name ≡ false
          → contains name names ≡ false
          → contains name (first ∷ names) ≡ false
      other_first name first names d r = elim (Bool-cases (text_eq name first)) [
        | inr n ↦ rw n r
        | inl n ↦ absurd (
            cc (
              subst (λ t. text_eq t name ≡ false) (sym (text_eq_sound name first n)) d,
              text_eq_refl name,
            ))
      ]

  list_ours-Valid : (s : State World) → All (λ n. valid n ≡ true) (list_ours host s).0
  unfolding list_ours
  list_ours-Valid s = elim (Bool-cases (succeeded (run host list_volumes s).0)) [
    | inl e ↦ rw e (keep_if-Holds valid (map strip (lines_of (run host list_volumes s).0.stdout)))
    | inr e ↦ rw e tt
  ]

  -- The rig answered, in some state of this run, that the volume is removed or was not there.
  abbrev pub WasRemoved : Text → Type 0
  WasRemoved name = (t : State World) × ((volume_destroy host name t).0 ≡ none)

  add_removed-Removed :
      (name : Text) (problem : Option VolumeReason) (names : List Text) (t : State World)
      → (volume_destroy host name t).0 ≡ problem
      → All WasRemoved names
      → All WasRemoved (add_removed host name problem names)
  add_removed-Removed name none names t e a = ((t, e), a)
  add_removed-Removed name (some why) names t e a = a

  remove_unmounted-Removed :
      (mounted names : List Text) (s : State World)
      → All WasRemoved (remove_unmounted host mounted names s).0
  unfolding remove_unmounted
  remove_unmounted-Removed mounted [] s = tt
  remove_unmounted-Removed mounted (name ∷ names) s = elim (Bool-cases (contains name mounted)) [
    | inl e ↦ rw (e, remove_unmounted) (remove_unmounted-Removed mounted names s)
    | inr e ↦
        rw (e, remove_unmounted)
          (add_removed-Removed name (volume_destroy host name s).0 _ s refl
            (remove_unmounted-Removed mounted names (volume_destroy host name s).1))
  ]

  remove_given-Removed :
      (ours : List Text) (mounted : Option (List Text)) (s : State World)
      → All WasRemoved (remove_given host ours mounted s).0
  remove_given-Removed ours none s = tt
  remove_given-Removed ours (some mounted) s = remove_unmounted-Removed mounted ours s

  -- Where the rig says what is mounted, every volume of ours that it lists and no container mounts
  -- is told to be removed by the removal of stale volumes, also one that a job to be created brings
  -- along; and each volume that is then named as removed is one of which the rig answered that it
  -- is removed, or was not there.
  pub remove_stale_volumes-clears :
      (name : Text) (mounted : List Text) (s : State World)
      → said_mounts host s ≡ some mounted
      → contains name (list_ours host s).0 ≡ true
      → contains name mounted ≡ false
      → (is_left (volume name) (remove_stale_volumes host s).1.log ≡ false)
        × All WasRemoved (remove_stale_volumes host s).0
  unfolding remove_stale_volumes
  remove_stale_volumes-clears name mounted s m ours c =
      let looked = (mounted_volumes host (list_ours host s).1).1 in
      (
        elim (Bool-cases (is_left (volume name) (remove_stale_volumes host s).1.log)) [
          | inr e ↦ e
          | inl e ↦
              let left =
                subst
                  (λ o.
                    is_left (volume name) (remove_given host (list_ours host s).0 o looked).1.log
                    ≡ true)
                  m e in
              absurd (
                cc (
                  (remove_unmounted_lem mounted (list_ours host s).0 looked name (list_ours-Valid s)
                        left).1
                      c,
                  ours,
                ))
        ],
        remove_given-Removed (list_ours host s).0 (mounted_volumes host (list_ours host s).1).0
            looked,
      )

  -- What a destroy that succeeded leaves: what was there, but for the container and the volumes
  -- that it told the rig to remove.
  abbrev pub IsCleared : Extras → Text → Resource → State World → Type 0
  IsCleared extras name x s =
      (is_left x s.log ≡ true)
      × (removes (remove_with_volumes name) x ≡ false)
      × All (λ n. removes (remove_volume n) x ≡ false) extras.volume_names

  -- The rig answered the removal of the container, after it was stopped.
  abbrev pub ConfirmsRemoval : Text → ℕ → State World → Type 0
  ConfirmsRemoval name grace s =
      is_removed (run host (remove_with_volumes name) (run host (stop_container grace name) s).1).0
      ≡ true
