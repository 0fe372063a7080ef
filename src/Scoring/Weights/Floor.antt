-- ===== src/Scoring/Weights/Floor.antt =====
-- The turns of the eligibility floor: none makes weight, and every weight stays in its range.
use microtensor_compute.Common.{
  nat_eq, ℕ, ◌+◌, ◌-◌, ◌≤◌, ◌≡◌, ◌≢◌, refl, sym, ◌∙◌, inl, inr, ◌&&◌, ◌||◌, not, Bool, true, false,
  List, [], ◌∷◌, ◌++◌, Option, none, some, Dict, arith, if◌then◌else◌, leb, eqb, eqb_iff, lookup,
  insert, has_key, lookup-insert, All, All-mono, Distinct, keep_if, keep_if-Holds, Distinct-keep_if,
  Bool-cases, is_empty,
}
use microtensor_compute.Common.Sort.{All-sorted_by, Distinct-sorted_by}
use microtensor_compute.Scoring.Weights.{weight_at, floor_loop, missing_uids, eligibility_floor}

abbrev pub total_weight : Dict ℕ ℕ → ℕ
total_weight [] = 0
total_weight ((uid, weight) ∷ rest) = weight + total_weight rest

total-insert :
    (k v : ℕ) (m : Dict ℕ ℕ) → total_weight (insert k v m) + weight_at k m ≡ total_weight m + v
unfolding weight_at insert
total-insert k v [] = omega arith
total-insert k v ((j, w) ∷ m) = ground (arith, total-insert k v m)

pub weight_at-insert :
    (k j v : ℕ) (m : Dict ℕ ℕ) → weight_at j (insert k v m) ≡ (if eqb k j then v else weight_at j m)
unfolding weight_at
weight_at-insert k j v m = ground (arith, lookup-insert k j v m)

-- The uids that wait for a floor: absent so far, and none the donor.
abbrev pub IsPending : ℕ → Dict ℕ ℕ → ℕ → Type 0
IsPending donor u16 uid = (lookup uid u16 ≡ none) × (uid ≢ donor)

IsPending-insert :
    (donor k v uid : ℕ) (u16 : Dict ℕ ℕ)
    → k ≢ uid
    → IsPending donor u16 uid
    → IsPending donor (insert k v u16) uid
IsPending-insert donor k v uid u16 h p = (ground (arith, lookup-insert k uid v u16), p.1)

Pending-insert :
    (donor k v : ℕ) (us : List ℕ) (u16 : Dict ℕ ℕ)
    → All (λ u. k ≢ u) us
    → All (IsPending donor u16) us
    → All (IsPending donor (insert k v u16)) us
Pending-insert donor k v [] u16 h p = tt
Pending-insert donor k v (u ∷ us) u16 h p =
    (IsPending-insert donor k v u u16 h.0 p.0, Pending-insert donor k v us u16 h.1 p.1)

-- One turn of the loop.
abbrev pub give : ℕ → ℕ → Dict ℕ ℕ → Dict ℕ ℕ
give donor uid u16 = insert uid 1 (insert donor (weight_at donor u16 - 1) u16)

Pending-give :
    (donor uid : ℕ) (us : List ℕ) (u16 : Dict ℕ ℕ)
    → All (λ u. uid ≢ u) us
    → All (IsPending donor u16) us
    → All (IsPending donor (give donor uid u16)) us
Pending-give donor uid us u16 h p = Pending-insert donor uid 1 us _ h (
    Pending-insert donor donor _ us u16
      (All-mono (IsPending donor u16) (λ u. donor ≢ u) us (λ u q e. q.1 (sym e)) p) p)

total-give :
    (donor uid : ℕ) (u16 : Dict ℕ ℕ)
    → IsPending donor u16 uid
    → leb (weight_at donor u16) 1 ≡ false
    → total_weight (give donor uid u16) ≡ total_weight u16
total-give donor uid u16 p rich =
    let absent =
      missing (insert donor (weight_at donor u16 - 1) u16)
        (IsPending-insert donor donor _ uid u16 (λ e. p.1 (sym e)) p).0 in
    ground (
      arith,
      absent,
      total-insert donor (weight_at donor u16 - 1) u16,
      total-insert uid 1 (insert donor (weight_at donor u16 - 1) u16),
    )
  where
    missing : (m : Dict ℕ ℕ) → lookup uid m ≡ none → weight_at uid m ≡ 0
    missing m e = unfold weight_at in rw e

pub total-floor_loop :
    (donor : ℕ) (us : List ℕ) (u16 : Dict ℕ ℕ) (floored : List ℕ)
    → Distinct us
    → All (IsPending donor u16) us
    → total_weight (floor_loop donor us u16 floored).0 ≡ total_weight u16
unfolding floor_loop
total-floor_loop donor [] u16 floored d p = refl
total-floor_loop donor (uid ∷ us) u16 floored d p =
    elim (Bool-cases (leb (weight_at donor u16) 1)) [
      | inl poor ↦ rw poor refl
      | inr rich ↦ rw rich (
          total-floor_loop donor us (give donor uid u16) (floored ++ uid ∷ []) d.1
            (Pending-give donor uid us u16 d.0 p.1)
          ∙ total-give donor uid u16 p.0 rich)
    ]

abbrev is_missing : Dict ℕ ℕ → ℕ → ℕ → Bool
is_missing u16 donor uid = not (has_key uid u16) && not (eqb uid donor)

missing-IsPending :
    (u16 : Dict ℕ ℕ) (donor uid : ℕ) → is_missing u16 donor uid ≡ true → IsPending donor u16 uid
missing-IsPending u16 donor uid h = (ground arith, λ e. ground (arith, eqb_iff uid donor))

pub missing_uids-Pending :
    (u16 : Dict ℕ ℕ) (active : List ℕ) (donor : ℕ)
    → All (IsPending donor u16) (missing_uids u16 active (some donor))
unfolding missing_uids
missing_uids-Pending u16 active donor = All-sorted_by leb (IsPending donor u16) _ (
    All-mono _ (IsPending donor u16) (keep_if (is_missing u16 donor) active)
      (missing-IsPending u16 donor) (keep_if-Holds (is_missing u16 donor) active))

pub missing_uids-Distinct :
    (u16 : Dict ℕ ℕ) (active : List ℕ) (donor : ℕ)
    → Distinct active
    → Distinct (missing_uids u16 active (some donor))
unfolding missing_uids
missing_uids-Distinct u16 active donor d =
    Distinct-sorted_by leb _ (Distinct-keep_if (is_missing u16 donor) active d)

pub weight_at-give_donor :
    (donor uid : ℕ) (u16 : Dict ℕ ℕ)
    → uid ≢ donor
    → weight_at donor (give donor uid u16) ≡ weight_at donor u16 - 1
weight_at-give_donor donor uid u16 h = ground (
  arith,
  weight_at-insert uid donor 1 (insert donor (weight_at donor u16 - 1) u16),
  weight_at-insert donor donor (weight_at donor u16 - 1) u16,
)

-- A weight that fits the chain's 16 bits and is not zero.
abbrev pub InU16 : ℕ × ℕ → Type 0
InU16 (uid, weight) = (1 ≤ weight) × (weight ≤ 65535)

pub insert-InU16 :
    (k v : ℕ) (m : Dict ℕ ℕ) → 1 ≤ v → v ≤ 65535 → All InU16 m → All InU16 (insert k v m)
unfolding insert
insert-InU16 k v [] h1 h2 a = ((h1, h2), tt)
insert-InU16 k v ((j, w) ∷ m) h1 h2 a = elim (Bool-cases (eqb j k)) [
  | inl e ↦ rw e ((h1, h2), a.1)
  | inr e ↦ rw e (a.0, insert-InU16 k v m h1 h2 a.1)
]

weight_at-le : (k : ℕ) (m : Dict ℕ ℕ) → All InU16 m → weight_at k m ≤ 65535
unfolding weight_at
weight_at-le k [] a = omega arith
weight_at-le k ((j, w) ∷ m) a = ground (arith, weight_at-le k m a.1)

floor_loop-InU16 :
    (donor : ℕ) (us : List ℕ) (u16 : Dict ℕ ℕ) (floored : List ℕ)
    → All InU16 u16
    → All InU16 (floor_loop donor us u16 floored).0
unfolding floor_loop
floor_loop-InU16 donor [] u16 floored a = a
floor_loop-InU16 donor (uid ∷ us) u16 floored a = elim (Bool-cases (leb (weight_at donor u16) 1)) [
  | inl poor ↦ rw poor a
  | inr rich ↦
      let taken =
        insert-InU16 donor (weight_at donor u16 - 1) u16 (ground arith)
          (omega (arith, weight_at-le donor u16 a)) a in
      rw rich (
        floor_loop-InU16 donor us (give donor uid u16) (floored ++ uid ∷ [])
          (insert-InU16 uid 1 _ (omega arith) (omega arith) taken))
]

-- The floor keeps every weight within 1 and 65535; the donor too is never taken to zero.
pub eligibility_floor-InU16 :
    (u16 : Dict ℕ ℕ) (active : List ℕ) (donor : Option ℕ)
    → All InU16 u16
    → All InU16 (eligibility_floor u16 active donor).0
unfolding eligibility_floor
eligibility_floor-InU16 u16 active none a = a
eligibility_floor-InU16 u16 active (some donor) a =
    elim (Bool-cases (is_empty (missing_uids u16 active (some donor)) || not (has_key donor u16))) [
      | inl e ↦ rw e a
      | inr e ↦ rw e (floor_loop-InU16 donor _ u16 [] a)
    ]
