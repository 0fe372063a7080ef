-- ===== src/Scoring/Formula.antt =====
-- validator/scoring/formula.py: the score of a rig and the split of the pool, over the float
-- interface. `F` is the type of floats; counts are natural numbers.
pub mod Laws
pub mod Examples
use microtensor_compute.Common.{
  ℕ, ◌&&◌, ◌||◌, Bool, true, false, List, [], ◌∷◌, String, Dict, if◌then◌else◌, ltb,
}
use microtensor_compute.Common.Float.{Float, gt, max_f, min_f}

pub record ScoreInputs (F : Type 0) : Type 0 where
  pub verified : Bool
  pub demand_weight : F
  pub gpu_count : ℕ
  pub fleet_gpu_count : ℕ
  pub isolation_ok : Bool
  pub uptime_days : F
  pub driver_ok : Bool
  pub driver_cutoff_passed : Bool
  pub in_rental : Bool
  pub rental_opted_out : Bool

pub record ScoreBreakdown (F : Type 0) : Type 0 where
  pub base : F
  pub demand_weight : F
  pub capacity_share : F
  pub isolation : F
  pub uptime : F
  pub driver : F
  pub opt_out : F

module _ (float : Float) where
  open float use {F, literal, of_int, add, mul, div, le}

  abbrev pub pool_share : F
  pool_share = literal 60 100

  abbrev pub isolation_multiplier : F
  isolation_multiplier = literal 80 100

  abbrev pub uptime_ramp_days : F
  uptime_ramp_days = of_int 14

  abbrev pub opt_out_multiplier : F
  opt_out_multiplier = literal 85 100

  unfoldable pub product : ScoreBreakdown F → F
  product b =
      mul
        (mul (mul (mul (mul (mul b.base b.demand_weight) b.capacity_share) b.isolation) b.uptime)
          b.driver)
        b.opt_out

  unfoldable pub uptime_multiplier : F → F
  uptime_multiplier days =
      min_f float (of_int 1) (div (max_f float (of_int 0) days) uptime_ramp_days)

  unfoldable pub driver_multiplier : Bool → Bool → Bool → F
  driver_multiplier driver_ok cutoff_passed in_rental =
      if driver_ok || in_rental then of_int 1 else (if cutoff_passed then of_int 0 else of_int 1)

  unfoldable pub capacity_share_of : ℕ → ℕ → F
  capacity_share_of gpu_count fleet_gpu_count =
      if ltb 0 fleet_gpu_count && ltb 0 gpu_count
      then div (of_int gpu_count) (of_int fleet_gpu_count)
      else of_int 0

  unfoldable pub breakdown : ScoreInputs F → ScoreBreakdown F
  unfolding uptime_multiplier driver_multiplier capacity_share_of
  breakdown i = record {
    base = if i.verified then of_int 1 else of_int 0;
    demand_weight = max_f float (of_int 0) i.demand_weight;
    capacity_share = capacity_share_of i.gpu_count i.fleet_gpu_count;
    isolation = if i.isolation_ok then of_int 1 else isolation_multiplier;
    uptime = uptime_multiplier i.uptime_days;
    driver = driver_multiplier i.driver_ok i.driver_cutoff_passed i.in_rental;
    opt_out = if i.rental_opted_out then opt_out_multiplier else of_int 1;
  }

  unfoldable pub score : ScoreInputs F → F
  unfolding product
  score i = product (breakdown i)

  -- `sum(value for value in scores.values() if value > 0.0)`
  unfoldable pub positive_total : F → Dict String F → F
  positive_total acc [] = acc
  positive_total acc ((key, value) ∷ rest) =
      positive_total (if gt float value (of_int 0) then add acc value else acc) rest

  unfoldable pub zeroed : Dict String F → Dict String F
  zeroed [] = []
  zeroed ((key, value) ∷ rest) = (key, of_int 0) ∷ zeroed rest

  unfoldable pub shared_out : F → F → Dict String F → Dict String F
  shared_out pool total [] = []
  shared_out pool total ((key, value) ∷ rest) =
      (key, (if gt float value (of_int 0) then div (mul pool value) total else of_int 0))
      ∷ shared_out pool total rest

  unfoldable pub emissions : Dict String F → F → Dict String F
  unfolding positive_total zeroed shared_out
  emissions scores compute_emission =
      let pool = mul pool_share (max_f float (of_int 0) compute_emission) in
      let total = positive_total (of_int 0) scores in
      if le total (of_int 0) then zeroed scores else shared_out pool total scores
