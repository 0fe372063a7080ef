-- ===== src/Scoring/Weights.antt =====
-- validator/scoring/weights.py: from scores to the 16 bit weight vector that goes on chain. Shares
-- are floats, weights and uids are natural numbers.
pub mod Quantise
pub mod Shares
pub mod Uids
pub mod Floor
pub mod Moving
pub mod Vector
pub mod Examples
use microtensor_compute.Common.{
  nat_eq, ℕ, ◌+◌, ◌-◌, ◌&&◌, ◌||◌, not, Bool, true, false, List, [], ◌∷◌, ◌++◌, Option, none, some,
  Dict, map, if◌then◌else◌, leb, eqb, ltb, lookup, insert, has_key, from_option, max, is_empty,
  keep_if,
}
use microtensor_compute.Common.Sort.{sorted_by}
use microtensor_compute.Common.Float.{Float, gt, max_f, min_f}

abbrev pub u16_max : ℕ
u16_max = 65535

pub record WeightVector : Type 0 where
  pub uids : List ℕ
  pub weights : List ℕ
  pub floored : List ℕ
  pub reserve_uid : Option ℕ

module _ (float : Float) where
  open float use {F, literal, of_int, add, sub, mul, div, le, round}

  abbrev pub held_share_default : F
  held_share_default = literal 40 100

  unfoldable pub keep_positive : Dict ℕ F → Dict ℕ F
  keep_positive [] = []
  keep_positive ((uid, value) ∷ rest) =
      if gt float value (of_int 0) then (uid, value) ∷ keep_positive rest else keep_positive rest

  unfoldable pub total_from : F → Dict ℕ F → F
  total_from acc [] = acc
  total_from acc ((uid, value) ∷ rest) = total_from (add acc value) rest

  unfoldable pub scale_by : (F → F) → Dict ℕ F → Dict ℕ F
  scale_by f [] = []
  scale_by f ((uid, value) ∷ rest) = (uid, f value) ∷ scale_by f rest

  unfoldable pub normalise : Dict ℕ F → Dict ℕ F
  unfolding keep_positive total_from scale_by
  normalise scores =
      let positive = keep_positive scores in
      let total = total_from (of_int 0) positive in
      if le total (of_int 0) then [] else scale_by (λ value. div value total) positive

  unfoldable pub without : ℕ → Dict ℕ F → Dict ℕ F
  without reserve [] = []
  without reserve ((uid, value) ∷ rest) =
      if eqb uid reserve then without reserve rest else (uid, value) ∷ without reserve rest

  -- The reserve's own score is dropped, every other share is scaled down, and the held share is
  -- written to the reserve.
  unfoldable pub with_reserve : Dict ℕ F → Option ℕ → F → Dict ℕ F
  unfolding without scale_by lookup insert
  with_reserve shares none held_share = shares
  with_reserve shares (some reserve) held_share =
      let held = min_f float (max_f float held_share (of_int 0)) (of_int 1) in
      let scaled = scale_by (λ value. mul value (sub (of_int 1) held)) (without reserve shares) in
      if le held_share (of_int 0)
      then shares
      else insert reserve (add (from_option (of_int 0) (lookup reserve scaled)) held) scaled

  -- `max(shares.values())` of a mapping that is not empty.
  unfoldable pub top_of : F → Dict ℕ F → F
  top_of best [] = best
  top_of best ((uid, value) ∷ rest) = top_of (if gt float value best then value else best) rest

  unfoldable pub quantise : F → F → ℕ
  quantise top value = max 1 (round (mul (div value top) (of_int u16_max)))

  -- The loop over the shares; `out[uid] = …` overwrites, and uids are the keys of a mapping.
  unfoldable pub quantise_all : F → Dict ℕ F → Dict ℕ ℕ → Dict ℕ ℕ
  unfolding quantise insert
  quantise_all top [] out = out
  quantise_all top ((uid, value) ∷ rest) out =
      quantise_all top rest
        (if le value (of_int 0) then out else insert uid (quantise top value) out)

  unfoldable pub to_u16 : Dict ℕ F → Dict ℕ ℕ
  unfolding top_of quantise_all
  to_u16 [] = []
  to_u16 ((uid, value) ∷ rest) =
      let top = top_of value rest in
      if le top (of_int 0) then [] else quantise_all top ((uid, value) ∷ rest) []

-- `u16[uid]` of a uid that is a key.
unfoldable pub weight_at : ℕ → Dict ℕ ℕ → ℕ
unfolding lookup
weight_at uid u16 = from_option 0 (lookup uid u16)

-- The `for uid in missing` loop, which stops when the donor is down to one.
unfoldable pub floor_loop : ℕ → List ℕ → Dict ℕ ℕ → List ℕ → Dict ℕ ℕ × List ℕ
unfolding weight_at insert
floor_loop donor [] u16 floored = (u16, floored)
floor_loop donor (uid ∷ rest) u16 floored =
    let given = insert uid 1 (insert donor (weight_at donor u16 - 1) u16) in
    let more = floor_loop donor rest given (floored ++ uid ∷ []) in
    if leb (weight_at donor u16) 1 then (u16, floored) else more

-- `sorted(uid for uid in active_uids if uid not in u16 and uid != donor_uid)`
unfoldable pub missing_uids : Dict ℕ ℕ → List ℕ → Option ℕ → List ℕ
unfolding keep_if sorted_by lookup
missing_uids u16 active none = sorted_by leb (keep_if (λ uid. not (has_key uid u16)) active)
missing_uids u16 active (some donor) =
    sorted_by leb (keep_if (λ uid. not (has_key uid u16) && not (eqb uid donor)) active)

-- The dictionary is updated in place: the result is its new state and the floored uids.
unfoldable pub eligibility_floor : Dict ℕ ℕ → List ℕ → Option ℕ → Dict ℕ ℕ × List ℕ
unfolding missing_uids floor_loop
eligibility_floor u16 active none = (u16, [])
eligibility_floor u16 active (some donor) =
    if is_empty (missing_uids u16 active (some donor)) || not (has_key donor u16)
    then (u16, [])
    else floor_loop donor (missing_uids u16 active (some donor)) u16 []

abbrev pub by_uid : ℕ × ℕ → ℕ × ℕ → Bool
by_uid (a, _) (b, _) = leb a b

unfoldable pub build : (float : Float) → Dict ℕ float.F → List ℕ → Option ℕ → float.F → WeightVector
unfolding normalise with_reserve to_u16 eligibility_floor sorted_by
build float scores active reserve held_share =
    let shares = with_reserve float (normalise float scores) reserve held_share in
    let (u16, floored) = eligibility_floor (to_u16 float shares) active reserve in
    let ordered = sorted_by by_uid u16 in
    record {
      uids = map (λ kv. kv.0) ordered;
      weights = map (λ kv. kv.1) ordered;
      floored = floored;
      reserve_uid = reserve;
    }
