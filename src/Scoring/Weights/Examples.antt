-- ===== src/Scoring/Weights/Examples.antt =====
-- The weight vector of a small epoch, in fixed point numbers.
use microtensor_compute.Common.{
  nat_eq, ℕ, ◌≤◌, ◌≡◌, refl, [], ◌∷◌, some, Dict, arith, leb, All, Distinct, length,
}
use microtensor_compute.Common.Sort.{Ascending}
use microtensor_compute.Common.Float.FixedPoint.{fixed}
use microtensor_compute.Scoring.Weights.{normalise, with_reserve, to_u16, eligibility_floor, build}
use microtensor_compute.Scoring.Weights.Moving.{IsMoved, total-eligibility_floor}
use microtensor_compute.Scoring.Weights.Vector.{build-InU16}

-- Scores of 3.00, 1.00 and 0.00, the reserve at uid 0.
abbrev scores : Dict ℕ ℕ
scores = (7, 300) ∷ (4, 100) ∷ (9, 0) ∷ []

abbrev shares : Dict ℕ ℕ
shares = (7, 75) ∷ (4, 25) ∷ []

normalise-scores : normalise fixed scores ≡ shares
unfolding normalise
normalise-scores = refl

with_reserve-shares : with_reserve fixed shares (some 0) 40 ≡ (7, 45) ∷ (4, 15) ∷ (0, 40) ∷ []
unfolding with_reserve
with_reserve-shares = refl

to_u16-shares : to_u16 fixed shares ≡ (7, 65535) ∷ (4, 21627) ∷ []
unfolding to_u16
to_u16-shares = refl

abbrev weights : Dict ℕ ℕ
weights = (7, 65535) ∷ (0, 50) ∷ []

total-eligibility_floor_example :
    IsMoved weights (9 ∷ 3 ∷ []) (some 0) (eligibility_floor weights (9 ∷ 3 ∷ []) (some 0))
total-eligibility_floor_example =
    total-eligibility_floor weights (9 ∷ 3 ∷ []) (some 0) ((omega arith, tt), (tt, tt))

eligibility_floor-weights :
    eligibility_floor weights (9 ∷ 3 ∷ []) (some 0)
    ≡ ((7, 65535) ∷ (0, 48) ∷ (3, 1) ∷ (9, 1) ∷ [], 3 ∷ 9 ∷ [])
unfolding eligibility_floor
eligibility_floor-weights = refl

build-InU16_example :
    (length (build fixed scores (9 ∷ []) (some 0) 40).uids
      ≡ length (build fixed scores (9 ∷ []) (some 0) 40).weights)
    × Ascending leb (build fixed scores (9 ∷ []) (some 0) 40).uids
    × Distinct (build fixed scores (9 ∷ []) (some 0) 40).uids
    × All (λ w. (1 ≤ w) × (w ≤ 65535)) (build fixed scores (9 ∷ []) (some 0) 40).weights
build-InU16_example =
    build-InU16 fixed scores (9 ∷ []) (some 0) 40 (refl, (refl, (refl, tt))) refl refl
