-- ===== src/Scoring/Weights/Vector.antt =====
-- The vector that is submitted.
use microtensor_compute.Common.{
  ℕ, suc, ◌≤◌, ◌≡◌, refl, ap, ◌⊎◌, true, List, [], ◌∷◌, Option, Dict, map, arith, leb, All,
  Distinct, length,
}
use microtensor_compute.Common.Sort.{sorted_by, Ascending, All-sorted_by, sorted_by-Ascending}
use microtensor_compute.Common.Float.{Float}
use microtensor_compute.Scoring.Weights.{
  normalise, with_reserve, to_u16, eligibility_floor, by_uid, build,
}
use microtensor_compute.Scoring.Weights.Quantise.{HasFinite, to_u16-InU16}
use microtensor_compute.Scoring.Weights.Shares.{positive_total, with_reserve-Finite}
use microtensor_compute.Scoring.Weights.Uids.{uids-Distinct}
use microtensor_compute.Scoring.Weights.Floor.{InU16, eligibility_floor-InU16}

by_uid_total : (a b : ℕ × ℕ) → (by_uid a b ≡ true) ⊎ (by_uid b a ≡ true)
by_uid_total (a, v) (b, w) = ground arith

by_uid_trans : (a b c : ℕ × ℕ) → by_uid a b ≡ true → by_uid b c ≡ true → by_uid a c ≡ true
by_uid_trans (a, u) (b, v) (c, w) h k = ground arith

weights-InU16 : (m : Dict ℕ ℕ) → All InU16 m → All (λ w. (1 ≤ w) × (w ≤ 65535)) (map (λ kv. kv.1) m)
weights-InU16 [] a = tt
weights-InU16 ((uid, weight) ∷ m) a = (a.0, weights-InU16 m a.1)

uids-above :
    (a : ℕ × ℕ) (m : Dict ℕ ℕ)
    → All (λ b. by_uid a b ≡ true) m
    → All (λ u. leb a.0 u ≡ true) (map (λ kv. kv.0) m)
uids-above (a, v) [] h = tt
uids-above (a, v) ((uid, weight) ∷ m) h = (h.0, uids-above (a, v) m h.1)

uids-Ascending : (m : Dict ℕ ℕ) → Ascending by_uid m → Ascending leb (map (λ kv. kv.0) m)
uids-Ascending [] a = tt
uids-Ascending ((uid, weight) ∷ m) a = (uids-above (uid, weight) m a.0, uids-Ascending m a.1)

length-columns : (m : Dict ℕ ℕ) → length (map (λ kv. kv.0) m) ≡ length (map (λ kv. kv.1) m)
length-columns [] = refl
length-columns (kv ∷ m) = ap suc (length-columns m)

-- Where the scores, the total of those above zero and the held share are finite, the submitted
-- vector has as many weights as uids, its uids ascend and none stands twice, and every weight lies
-- within 1 and 65535.
pub build-InU16 :
    (float : Float) (scores : Dict ℕ float.F) (active : List ℕ) (reserve : Option ℕ)
    (held_share : float.F)
    → All (HasFinite float) scores
    → float.is_finite (positive_total float scores) ≡ true
    → float.is_finite held_share ≡ true
    → (length (build float scores active reserve held_share).uids
        ≡ length (build float scores active reserve held_share).weights)
      × Ascending leb (build float scores active reserve held_share).uids
      × Distinct (build float scores active reserve held_share).uids
      × All (λ w. (1 ≤ w) × (w ≤ 65535)) (build float scores active reserve held_share).weights
unfolding build
build-InU16 float scores active reserve held_share f t h =
    let shares = with_reserve float (normalise float scores) reserve held_share in
    let u16 = (eligibility_floor (to_u16 float shares) active reserve).0 in
    let fits =
      eligibility_floor-InU16 (to_u16 float shares) active reserve
        (to_u16-InU16 float shares (with_reserve-Finite float scores reserve held_share f t h)) in
    (
      length-columns (sorted_by by_uid u16),
      uids-Ascending _ (sorted_by-Ascending by_uid by_uid_total by_uid_trans u16),
      uids-Distinct float shares active reserve by_uid,
      weights-InU16 _ (All-sorted_by by_uid InU16 u16 fits),
    )
