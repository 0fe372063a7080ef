-- ===== src/Scoring/Weights/Uids.antt =====
-- A weight vector names each uid once.
use microtensor_compute.Common.{
  nat_eq, ℕ, ◌-◌, ◌≢◌, sym, inl, inr, ◌||◌, not, Bool, List, [], ◌∷◌, ◌++◌, Option, none, some,
  Dict, leb, is_empty, has_key, All, Distinct, Bool-cases, keys, Distinct-keys-insert,
}
use microtensor_compute.Common.Float.{Float}
use microtensor_compute.Common.Sort.{insert_sorted, sorted_by}
use microtensor_compute.Scoring.Weights.{
  weight_at, top_of, quantise, quantise_all, to_u16, floor_loop, missing_uids, eligibility_floor,
}

quantise_all-Distinct :
    (float : Float) (top : float.F) (shares : Dict ℕ float.F) (out : Dict ℕ ℕ)
    → Distinct (keys out)
    → Distinct (keys (quantise_all float top shares out))
unfolding quantise_all
quantise_all-Distinct float top [] out d = d
quantise_all-Distinct float top ((uid, value) ∷ rest) out d =
    elim (Bool-cases (float.le value (float.of_int 0))) [
      | inl e ↦ rw e (quantise_all-Distinct float top rest out d)
      | inr e ↦ rw e (
          quantise_all-Distinct float top rest _
            (Distinct-keys-insert uid (quantise float top value) out d))
    ]

to_u16-Distinct : (float : Float) (shares : Dict ℕ float.F) → Distinct (keys (to_u16 float shares))
unfolding to_u16
to_u16-Distinct float [] = tt
to_u16-Distinct float ((uid, value) ∷ rest) =
    elim (Bool-cases (float.le (top_of float value rest) (float.of_int 0))) [
      | inl e ↦ rw e tt
      | inr e ↦ rw e (quantise_all-Distinct float _ ((uid, value) ∷ rest) [] tt)
    ]

floor_loop-Distinct :
    (donor : ℕ) (us : List ℕ) (u16 : Dict ℕ ℕ) (floored : List ℕ)
    → Distinct (keys u16)
    → Distinct (keys (floor_loop donor us u16 floored).0)
unfolding floor_loop
floor_loop-Distinct donor [] u16 floored d = d
floor_loop-Distinct donor (uid ∷ us) u16 floored d =
    elim (Bool-cases (leb (weight_at donor u16) 1)) [
      | inl e ↦ rw e d
      | inr e ↦ rw e (
          floor_loop-Distinct donor us _ (floored ++ uid ∷ []) (
            Distinct-keys-insert uid 1 _
              (Distinct-keys-insert donor (weight_at donor u16 - 1) u16 d)))
    ]

eligibility_floor-Distinct :
    (u16 : Dict ℕ ℕ) (active : List ℕ) (donor : Option ℕ)
    → Distinct (keys u16)
    → Distinct (keys (eligibility_floor u16 active donor).0)
unfolding eligibility_floor
eligibility_floor-Distinct u16 active none d = d
eligibility_floor-Distinct u16 active (some donor) d =
    elim (Bool-cases (is_empty (missing_uids u16 active (some donor)) || not (has_key donor u16))) [
      | inl e ↦ rw e d
      | inr e ↦ rw e (floor_loop-Distinct donor _ u16 [] d)
    ]

module _ (le : ℕ × ℕ → ℕ × ℕ → Bool) where
  All-keys-insert_sorted :
      (P : ℕ → Type 0) (x : ℕ × ℕ) (m : Dict ℕ ℕ)
      → P x.0
      → All P (keys m)
      → All P (keys (insert_sorted le x m))
  unfolding insert_sorted
  All-keys-insert_sorted P x [] p a = (p, tt)
  All-keys-insert_sorted P x (y ∷ ys) p a = elim (Bool-cases (le x y)) [
    | inl e ↦ rw e (p, a)
    | inr e ↦ rw e (a.0, All-keys-insert_sorted P x ys p a.1)
  ]

  Distinct-keys-insert_sorted :
      (x : ℕ × ℕ) (m : Dict ℕ ℕ)
      → All (λ k. x.0 ≢ k) (keys m)
      → Distinct (keys m)
      → Distinct (keys (insert_sorted le x m))
  unfolding insert_sorted
  Distinct-keys-insert_sorted x [] a d = (tt, tt)
  Distinct-keys-insert_sorted x (y ∷ ys) a d = elim (Bool-cases (le x y)) [
    | inl e ↦ rw e (a, d)
    | inr e ↦ rw e (
      All-keys-insert_sorted (λ k. y.0 ≢ k) x ys (λ q. a.0 (sym q)) d.0,
      Distinct-keys-insert_sorted x ys a.1 d.1,
    )
  ]

  All-keys-sorted_by :
      (P : ℕ → Type 0) (m : Dict ℕ ℕ) → All P (keys m) → All P (keys (sorted_by le m))
  unfolding sorted_by
  All-keys-sorted_by P [] a = tt
  All-keys-sorted_by P (x ∷ m) a =
      All-keys-insert_sorted P x (sorted_by le m) a.0 (All-keys-sorted_by P m a.1)

  Distinct-keys-sorted_by : (m : Dict ℕ ℕ) → Distinct (keys m) → Distinct (keys (sorted_by le m))
  unfolding sorted_by
  Distinct-keys-sorted_by [] d = tt
  Distinct-keys-sorted_by (x ∷ m) d =
      Distinct-keys-insert_sorted x (sorted_by le m) (All-keys-sorted_by (λ k. x.0 ≢ k) m d.0)
        (Distinct-keys-sorted_by m d.1)

-- The uids of the vector, in any order.
pub uids-Distinct :
    (float : Float) (shares : Dict ℕ float.F) (active : List ℕ) (reserve : Option ℕ)
    (le : ℕ × ℕ → ℕ × ℕ → Bool)
    → Distinct (keys (sorted_by le (eligibility_floor (to_u16 float shares) active reserve).0))
uids-Distinct float shares active reserve le =
    Distinct-keys-sorted_by le _ (
      eligibility_floor-Distinct (to_u16 float shares) active reserve
        (to_u16-Distinct float shares))
