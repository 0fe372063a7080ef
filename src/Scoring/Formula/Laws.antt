-- ===== src/Scoring/Formula/Laws.antt =====
-- What the score formula promises where nothing overflows: bounds and monotonicity in uptime.
use microtensor_compute.Common.{
  ℕ, ◌≤◌, ◌<◌, ◌≡◌, inl, inr, Bool, true, false, ◌&&◌, arith, if◌then◌else◌, Bool-cases, ltb,
}
use microtensor_compute.Common.Float.{Float, exact_ints, max_f, min_f}
use microtensor_compute.Scoring.Formula.{
  ScoreInputs, ScoreBreakdown, product, uptime_multiplier, driver_multiplier, capacity_share_of,
  breakdown, score,
}

module _ (float : Float) where
  open float use {
    F, literal, of_int, mul, div, le, is_finite, le_refl, le_total, le_trans, finite_between,
    zero-le-literal, literal-le-one, of_int-finite, of_int_mono, of_int_reflects, mul-zero_left,
    mul-one_left, mul-one_right, mul_finite, mul_mono, div_mono, div-finite, zero-div,
  }

  abbrev IsFin : F → Type 0
  IsFin a = is_finite a ≡ true

  -- A finite number that is not negative.
  abbrev IsAmount : F → Type 0
  IsAmount a = IsFin a × (le (of_int 0) a ≡ true)

  -- A number between 0 and 1.
  abbrev IsShare : F → Type 0
  IsShare a = (le (of_int 0) a ≡ true) × (le a (of_int 1) ≡ true)

  zero-IsFin : IsFin (of_int 0)
  zero-IsFin = of_int-finite 0 (omega arith)

  one-IsFin : IsFin (of_int 1)
  one-IsFin = of_int-finite 1 (omega arith)

  share-IsFin : (a : F) → IsShare a → IsFin a
  share-IsFin a h = finite_between _ a _ zero-IsFin one-IsFin h.0 h.1

  same : (a : F) → IsFin a → le a a ≡ true
  same = le_refl

  of_int-pos : (n : ℕ) → 0 < n → n ≤ exact_ints → le (of_int n) (of_int 0) ≡ false
  of_int-pos n h k = elim (Bool-cases (le (of_int n) (of_int 0))) [
    | inl e ↦ absurd (omega (arith, of_int_reflects n 0 k (omega arith) e))
    | inr e ↦ e
  ]

  zero-IsShare : IsShare (of_int 0)
  zero-IsShare = (same _ zero-IsFin, of_int_mono 0 1 (omega arith) (omega arith))

  one-IsShare : IsShare (of_int 1)
  one-IsShare = (of_int_mono 0 1 (omega arith) (omega arith), same _ one-IsFin)

  literal-IsShare : (p q : ℕ) → p ≤ q → 0 < q → IsShare (literal p q)
  literal-IsShare p q h k = (zero-le-literal p q k, literal-le-one p q h k)

  if-IsShare : (b : Bool) (x y : F) → IsShare x → IsShare y → IsShare (if b then x else y)
  if-IsShare true x y hx hy = hx
  if-IsShare false x y hx hy = hy

  max_f-IsAmount : (a : F) → IsFin a → IsAmount (max_f float (of_int 0) a)
  max_f-IsAmount a f = elim (Bool-cases (le a (of_int 0))) [
    | inl e ↦ rw e (zero-IsFin, same _ zero-IsFin)
    | inr e ↦ rw e (f, (elim (le_total (of_int 0) a zero-IsFin f) [ inl h ↦ h | inr h ↦ cc ]))
  ]

  max_f_mono :
      (a b : F)
      → IsFin a
      → IsFin b
      → le a b ≡ true
      → le (max_f float (of_int 0) a) (max_f float (of_int 0) b) ≡ true
  max_f_mono a b f g h = elim (Bool-cases (le a (of_int 0))) [
    | inl e ↦ rw e (max_f-IsAmount b g).1
    | inr e ↦ rw e (elim (Bool-cases (le b (of_int 0))) [
      | inl k ↦ let l = le_trans a b (of_int 0) h k in cc
      | inr k ↦ rw k h
    ])
  ]

  min_f_mono :
      (c a b : F)
      → IsFin c
      → IsFin a
      → IsFin b
      → le a b ≡ true
      → le (min_f float c a) (min_f float c b) ≡ true
  min_f_mono c a b f g k h = elim (Bool-cases (le c a)) [
    | inl e ↦ rw (e, le_trans c a b e h) (same c f)
    | inr e ↦ rw e (elim (Bool-cases (le c b)) [
      | inl l ↦ rw l (elim (le_total c a f g) [ inl m ↦ cc | inr m ↦ m ])
      | inr l ↦ rw l h
    ])
  ]

  min_f-IsShare : (a : F) → IsAmount a → IsShare (min_f float (of_int 1) a)
  min_f-IsShare a h = elim (Bool-cases (le (of_int 1) a)) [
    | inl e ↦ rw e one-IsShare
    | inr e ↦ rw e (h.1, (elim (le_total (of_int 1) a one-IsFin h.0) [ inl k ↦ cc | inr k ↦ k ]))
  ]

  div-IsAmount : (a : F) (n : ℕ) → 0 < n → n ≤ exact_ints → IsAmount a → IsAmount (div a (of_int n))
  div-IsAmount a n h k p =
      let pos = of_int-pos n h k in
      let fin = of_int-finite n k in
      (
        div-finite a (of_int n) p.0 fin (of_int_mono 1 n (omega arith) k),
        rw (zero-div (of_int n) fin pos) at (div_mono (of_int 0) a (of_int n) fin pos p.1),
      )

  ramped : (days : F) → IsFin days → IsAmount (div (max_f float (of_int 0) days) (of_int 14))
  ramped days f = div-IsAmount _ 14 (omega arith) (omega arith) (max_f-IsAmount days f)

  uptime_multiplier-IsShare : (days : F) → IsFin days → IsShare (uptime_multiplier float days)
  unfolding uptime_multiplier
  uptime_multiplier-IsShare days f = min_f-IsShare _ (ramped days f)

  pub uptime_multiplier_mono :
      (a b : F)
      → is_finite a ≡ true
      → is_finite b ≡ true
      → le a b ≡ true
      → le (uptime_multiplier float a) (uptime_multiplier float b) ≡ true
  unfolding uptime_multiplier
  uptime_multiplier_mono a b f g h = min_f_mono _ _ _ one-IsFin (ramped a f).0 (ramped b g).0 (
      div_mono _ _ _ (of_int-finite 14 (omega arith)) (of_int-pos 14 (omega arith) (omega arith))
        (max_f_mono a b f g h))

  driver_multiplier-IsShare : (a b c : Bool) → IsShare (driver_multiplier float a b c)
  unfolding driver_multiplier
  driver_multiplier-IsShare a b c =
      if-IsShare _ _ _ one-IsShare (if-IsShare b _ _ zero-IsShare one-IsShare)

  capacity_share_of-IsAmount :
      (m n : ℕ) → m ≤ exact_ints → n ≤ exact_ints → IsAmount (capacity_share_of float m n)
  unfolding capacity_share_of
  capacity_share_of-IsAmount m n h k = elim (Bool-cases (ltb 0 n && ltb 0 m)) [
    | inl e ↦ rw e (
        div-IsAmount (of_int m) n (ground arith) k
          (of_int-finite m h, of_int_mono 0 m (omega arith) h))
    | inr e ↦ rw e (zero-IsFin, same _ zero-IsFin)
  ]

  -- A product of amounts that stays below a finite one.
  mul-IsAmount :
      (a b c d : F)
      → le (of_int 0) a ≡ true
      → le a b ≡ true
      → le (of_int 0) c ≡ true
      → le c d ≡ true
      → IsFin (mul b d)
      → IsAmount (mul a c)
  mul-IsAmount a b c d ha hb hc hd f =
      let fin = mul_finite a b c d ha hb hc hd f in
      (
        fin,
        rw (mul-zero_left (of_int 0) zero-IsFin) at
            (mul_mono _ _ _ _ (same _ zero-IsFin) ha (same _ zero-IsFin) hc fin),
      )

  -- `b` is an amount that is no more than `a`.
  abbrev Shrinks : F → F → Type 0
  Shrinks a b = IsAmount b × (le b a ≡ true)

  Shrinks-mul : (a b m : F) → Shrinks a b → IsShare m → Shrinks a (mul b m)
  Shrinks-mul a b m h hm =
      let self = same b h.0.0 in
      let whole : IsFin (mul b (of_int 1)) = rw (mul-one_right b) h.0.0 in
      (
        mul-IsAmount b b m (of_int 1) h.0.1 self hm.0 hm.1 whole,
        le_trans _ b a
            (rw (mul-one_right b) at (mul_mono b b m (of_int 1) h.0.1 self hm.0 hm.1 whole)) h.1,
      )

  -- Every factor of a breakdown is in its range, and demand times capacity does not overflow.
  record InRange (b : ScoreBreakdown F) : Type 0 where
    base : IsShare b.base
    demand : IsAmount b.demand_weight
    capacity : IsAmount b.capacity_share
    ceiling : IsFin (mul b.demand_weight b.capacity_share)
    isolation : IsShare b.isolation
    uptime : IsShare b.uptime
    driver : IsShare b.driver
    opt_out : IsShare b.opt_out

  -- The inputs for which nothing overflows.
  pub record InFloats (i : ScoreInputs F) : Type 0 where
    pub cards : i.gpu_count ≤ exact_ints
    pub fleet : i.fleet_gpu_count ≤ exact_ints
    pub demand : is_finite i.demand_weight ≡ true
    pub days : is_finite i.uptime_days ≡ true
    pub ceiling :
        is_finite (
          mul
            (max_f float (of_int 0) i.demand_weight)
            (capacity_share_of float i.gpu_count i.fleet_gpu_count))
        ≡ true

  breakdown-InRange : (i : ScoreInputs F) → InFloats i → InRange (breakdown float i)
  unfolding breakdown
  breakdown-InRange i n = record {
    base = if-IsShare _ _ _ one-IsShare zero-IsShare;
    demand = max_f-IsAmount _ n.demand;
    capacity = capacity_share_of-IsAmount i.gpu_count i.fleet_gpu_count n.cards n.fleet;
    ceiling = n.ceiling;
    isolation = if-IsShare _ _ _ one-IsShare (literal-IsShare 80 100 (omega arith) (omega arith));
    uptime = uptime_multiplier-IsShare _ n.days;
    driver = driver_multiplier-IsShare i.driver_ok i.driver_cutoff_passed i.in_rental;
    opt_out = if-IsShare _ _ _ (literal-IsShare 85 100 (omega arith) (omega arith)) one-IsShare;
  }

  -- Up to the isolation factor.
  abbrev head_of : ScoreBreakdown F → F
  head_of b = mul (mul (mul b.base b.demand_weight) b.capacity_share) b.isolation

  head-Shrinks :
      (b : ScoreBreakdown F)
      → InRange b
      → Shrinks (mul b.demand_weight b.capacity_share) (head_of b)
  head-Shrinks b r = Shrinks-mul _ _ _ (start, capped) r.isolation
    where
      demand_self : le b.demand_weight b.demand_weight ≡ true
      demand_self = same _ r.demand.0

      capacity_self : le b.capacity_share b.capacity_share ≡ true
      capacity_self = same _ r.capacity.0

      whole : IsFin (mul (of_int 1) b.demand_weight)
      whole = rw (mul-one_left b.demand_weight) r.demand.0

      gated : IsAmount (mul b.base b.demand_weight)
      gated = mul-IsAmount _ _ _ _ r.base.0 r.base.1 r.demand.1 demand_self whole

      gated_le : le (mul b.base b.demand_weight) b.demand_weight ≡ true
      gated_le =
          rw (mul-one_left b.demand_weight) at
            (mul_mono _ _ _ _ r.base.0 r.base.1 r.demand.1 demand_self whole)

      start : IsAmount (mul (mul b.base b.demand_weight) b.capacity_share)
      start = mul-IsAmount _ _ _ _ gated.1 gated_le r.capacity.1 capacity_self r.ceiling

      capped :
          le
            (mul (mul b.base b.demand_weight) b.capacity_share)
            (mul b.demand_weight b.capacity_share)
          ≡ true
      capped = mul_mono _ _ _ _ gated.1 gated_le r.capacity.1 capacity_self r.ceiling

  product-Shrinks :
      (b : ScoreBreakdown F)
      → InRange b
      → Shrinks (mul b.demand_weight b.capacity_share) (product float b)
  unfolding product
  product-Shrinks b r =
      Shrinks-mul _ _ _ (Shrinks-mul _ _ _ (Shrinks-mul _ _ _ (head-Shrinks b r) r.uptime) r.driver)
        r.opt_out

  -- Where demand, uptime and demand times capacity are finite and the counts of cards are at most
  -- 2 ^ 53, a score is finite, never negative, and never above the demand weight times the capacity
  -- share: each other term of the formula can only lower it.
  pub score_bounds :
      (i : ScoreInputs F)
      → InFloats i
      → (is_finite (score float i) ≡ true)
        × (le (of_int 0) (score float i) ≡ true)
        × (le (score float i) (
              mul
                (max_f float (of_int 0) i.demand_weight)
                (capacity_share_of float i.gpu_count i.fleet_gpu_count))
            ≡ true)
  unfolding score breakdown
  score_bounds i n =
      let p = product-Shrinks (breakdown float i) (breakdown-InRange i n) in (p.0.0, p.0.1, p.1)

  score_mono_uptime_step :
      (b : ScoreBreakdown F) (u v : F)
      → InRange (record b { uptime = v })
      → le (of_int 0) u ≡ true
      → le u v ≡ true
      → le (product float (record b { uptime = u })) (product float (record b { uptime = v }))
        ≡ true
  unfolding product
  score_mono_uptime_step b u v r hu huv =
      mul_mono _ _ _ _ p2.1 m2 r.opt_out.0 (same _ (share-IsFin _ r.opt_out)) s3.0.0
    where
      s0 : Shrinks (mul b.demand_weight b.capacity_share) (head_of b)
      s0 = head-Shrinks (record b { uptime = v }) r

      s1 : Shrinks (mul b.demand_weight b.capacity_share) (mul (head_of b) v)
      s1 = Shrinks-mul _ _ _ s0 r.uptime

      s2 : Shrinks (mul b.demand_weight b.capacity_share) (mul (mul (head_of b) v) b.driver)
      s2 = Shrinks-mul _ _ _ s1 r.driver

      s3 :
          Shrinks
            (mul b.demand_weight b.capacity_share)
            (mul (mul (mul (head_of b) v) b.driver) b.opt_out)
      s3 = Shrinks-mul _ _ _ s2 r.opt_out

      head_self : le (head_of b) (head_of b) ≡ true
      head_self = same _ s0.0.0

      m1 : le (mul (head_of b) u) (mul (head_of b) v) ≡ true
      m1 = mul_mono _ _ _ _ s0.0.1 head_self hu huv s1.0.0

      p1 : IsAmount (mul (head_of b) u)
      p1 = mul-IsAmount _ _ _ _ s0.0.1 head_self hu huv s1.0.0

      driver_self : le b.driver b.driver ≡ true
      driver_self = same _ (share-IsFin _ r.driver)

      m2 : le (mul (mul (head_of b) u) b.driver) (mul (mul (head_of b) v) b.driver) ≡ true
      m2 = mul_mono _ _ _ _ p1.1 m1 r.driver.0 driver_self s2.0.0

      p2 : IsAmount (mul (mul (head_of b) u) b.driver)
      p2 = mul-IsAmount _ _ _ _ p1.1 m1 r.driver.0 driver_self s2.0.0

  -- Where demand, the uptimes and demand times capacity are finite and the counts of cards are at
  -- most 2 ^ 53, more uptime never lowers a score, all else equal.
  pub score_mono_uptime :
      (i : ScoreInputs F) (days : F)
      → InFloats i
      → is_finite days ≡ true
      → le i.uptime_days days ≡ true
      → le (score float i) (score float (record i { uptime_days = days })) ≡ true
  unfolding score breakdown
  score_mono_uptime i days n f h =
      score_mono_uptime_step (breakdown float i) _ _
        (breakdown-InRange (record i { uptime_days = days })
          (record {
            cards = n.cards;
            fleet = n.fleet;
            demand = n.demand;
            days = f;
            ceiling = n.ceiling;
          }))
        (uptime_multiplier-IsShare i.uptime_days n.days).0 (uptime_multiplier_mono _ _ n.days f h)
