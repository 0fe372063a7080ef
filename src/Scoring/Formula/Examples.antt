-- ===== src/Scoring/Formula/Examples.antt =====
-- The scoring laws at a concrete rig, in fixed point numbers.
use microtensor_compute.Common.{ℕ, ◌≡◌, refl, true, false, String, Dict, [], ◌∷◌, leb, arith}
use microtensor_compute.Common.Float.FixedPoint.{fixed}
use microtensor_compute.Scoring.Formula.{
  ScoreInputs, capacity_share_of, breakdown, score, emissions,
}
use microtensor_compute.Scoring.Formula.Laws.{InFloats, score_bounds, score_mono_uptime}

-- Two of ten cards, seven days of uptime, an old driver and no rental.
abbrev rig : ScoreInputs ℕ
rig = record {
  verified = true;
  demand_weight = 60;
  gpu_count = 2;
  fleet_gpu_count = 10;
  isolation_ok = false;
  uptime_days = 700;
  driver_ok = false;
  driver_cutoff_passed = true;
  in_rental = false;
  rental_opted_out = false;
}

abbrev rented : ScoreInputs ℕ
rented = record rig { in_rental = true }

-- 0.60 · 0.20 · 0.80 · 0.50, each product cut to two decimals.
score-rented : score fixed rented ≡ 4
unfolding score breakdown
score-rented = refl

rented-InFloats : InFloats fixed rented
rented-InFloats = record {
  cards = omega arith;
  fleet = omega arith;
  demand = refl;
  days = refl;
  ceiling = refl;
}

score_bounds_example :
    (fixed.is_finite (score fixed rented) ≡ true)
    × (leb 0 (score fixed rented) ≡ true)
    × (leb (score fixed rented) 12 ≡ true)
unfolding capacity_share_of
score_bounds_example = score_bounds fixed rented rented-InFloats

score_mono_uptime_example :
    leb (score fixed rented) (score fixed (record rented { uptime_days = 1400 })) ≡ true
score_mono_uptime_example = score_mono_uptime fixed rented 1400 rented-InFloats refl refl

abbrev scores : Dict String ℕ
scores = ("a", 300) ∷ ("b", 0) ∷ ("c", 100) ∷ []

emissions-scores : emissions fixed scores 100000 ≡ ("a", 45000) ∷ ("b", 0) ∷ ("c", 15000) ∷ []
unfolding emissions
emissions-scores = refl
