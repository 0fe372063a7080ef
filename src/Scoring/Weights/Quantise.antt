-- ===== src/Scoring/Weights/Quantise.antt =====
-- The quantised weights and their range.
use microtensor_compute.Common.{
  nat_eq, ℕ, ◌≤◌, ◌≡◌, refl, sym, subst, inl, inr, true, false, [], ◌∷◌, Dict, arith, All,
  Bool-cases,
}
use microtensor_compute.Common.Float.{Float}
use microtensor_compute.Scoring.Weights.{top_of, quantise, quantise_all, to_u16, u16_max}
use microtensor_compute.Scoring.Weights.Floor.{InU16, insert-InU16}

module _ (float : Float) where
  open float use {
    F, of_int, mul, div, le, is_finite, round, le_refl, le_total, le_trans, finite_between,
    of_int-finite, of_int_mono, mul-zero_left, mul-one_left, mul_finite, mul_mono, div_mono,
    div_self, zero-div, round-of_int, round_mono,
  }

  abbrev IsBelow : F → ℕ × F → Type 0
  IsBelow top (uid, value) = le value top ≡ true

  abbrev pub HasFinite : ℕ × F → Type 0
  HasFinite (uid, value) = is_finite value ≡ true

  pub above : (a b : F) → is_finite a ≡ true → is_finite b ≡ true → le b a ≡ false → le a b ≡ true
  above a b f g h = elim (le_total a b f g) [ inl k ↦ k | inr k ↦ cc ]

  pub zero_fin : is_finite (of_int 0) ≡ true
  zero_fin = of_int-finite 0 (omega arith)

  pub one_fin : is_finite (of_int 1) ≡ true
  one_fin = of_int-finite 1 (omega arith)

  u16_fin : is_finite (of_int u16_max) ≡ true
  u16_fin = of_int-finite u16_max (omega arith)

  unit : mul (of_int 1) (of_int u16_max) ≡ of_int u16_max
  unit = mul-one_left (of_int u16_max)

  -- A number between 0 and 1 is scaled to one between 0 and 65535.
  scaled-le :
      (a : F)
      → le (of_int 0) a ≡ true
      → le a (of_int 1) ≡ true
      → round (mul a (of_int u16_max)) ≤ u16_max
  scaled-le a h k =
      let nonneg = of_int_mono 0 u16_max (omega arith) (omega arith) in
      let self = le_refl (of_int u16_max) u16_fin in
      let whole : is_finite (mul (of_int 1) (of_int u16_max)) ≡ true = rw unit u16_fin in
      let fin = mul_finite a (of_int 1) _ _ h k nonneg self whole in
      let low : le (of_int 0) (mul a (of_int u16_max)) ≡ true =
        rw (mul-zero_left (of_int 0) zero_fin) at
          (mul_mono _ _ _ _ (le_refl _ zero_fin) h (le_refl _ zero_fin) nonneg fin) in
      rw (unit, round-of_int u16_max (omega arith)) at
        (round_mono _ _ fin whole low (mul_mono a (of_int 1) _ _ h k nonneg self whole))

  -- The part that a value is of one that is not less.
  pub part_lem :
      (top value : F)
      → is_finite top ≡ true
      → le top (of_int 0) ≡ false
      → le (of_int 0) value ≡ true
      → le value top ≡ true
      → (le (of_int 0) (div value top) ≡ true) × (le (div value top) (of_int 1) ≡ true)
  part_lem top value f pos h k = (
    rw (zero-div top f pos) at (div_mono (of_int 0) value top f pos h),
    rw (div_self top f pos) at (div_mono value top top f pos k),
  )

  quantise-le :
      (top value : F)
      → is_finite top ≡ true
      → le top (of_int 0) ≡ false
      → le (of_int 0) value ≡ true
      → le value top ≡ true
      → quantise float top value ≤ 65535
  unfolding quantise
  quantise-le top value f pos h k =
      let part = part_lem top value f pos h k in
      omega (arith, scaled-le (div value top) part.0 part.1)

  quantise-one : (top value : F) → 1 ≤ quantise float top value
  unfolding quantise
  quantise-one top value = omega arith

  quantise_all-InU16 :
      (top : F) (shares : Dict ℕ F) (out : Dict ℕ ℕ)
      → is_finite top ≡ true
      → le top (of_int 0) ≡ false
      → All HasFinite shares
      → All (IsBelow top) shares
      → All InU16 out
      → All InU16 (quantise_all float top shares out)
  unfolding quantise_all
  quantise_all-InU16 top [] out f pos fin b a = a
  quantise_all-InU16 top ((uid, value) ∷ rest) out f pos fin b a =
      elim (Bool-cases (le value (of_int 0))) [
        | inl e ↦ rw e (quantise_all-InU16 top rest out f pos fin.1 b.1 a)
        | inr e ↦ rw e (
            quantise_all-InU16 top rest _ f pos fin.1 b.1 (
              insert-InU16 uid (quantise float top value) out (quantise-one top value)
                (quantise-le top value f pos (above _ _ zero_fin fin.0 e) b.0) a))
      ]

  abbrev Bounds : F → Dict ℕ F → F → Type 0
  Bounds best shares top = (is_finite top ≡ true) × (le best top ≡ true) × All (IsBelow top) shares

  -- `top_of` is an upper bound of what it has seen, and of its start.
  top_of-bound :
      (best : F) (shares : Dict ℕ F)
      → is_finite best ≡ true
      → All HasFinite shares
      → Bounds best shares (top_of float best shares)
  unfolding top_of
  top_of-bound best [] f fin = (f, le_refl best f, tt)
  top_of-bound best ((uid, value) ∷ rest) f fin = elim (Bool-cases (le value best)) [
    | inl e ↦
        let same : top_of float best ((uid, value) ∷ rest) ≡ top_of float best rest = rw e refl in
        let (g, bound, later) = top_of-bound best rest f fin.1 in
        subst (Bounds best ((uid, value) ∷ rest)) (sym same)
          (g, bound, (le_trans _ _ _ e bound, later))
    | inr e ↦
        let same : top_of float best ((uid, value) ∷ rest) ≡ top_of float value rest = rw e refl in
        let (g, bound, later) = top_of-bound value rest fin.0 fin.1 in
        subst (Bounds best ((uid, value) ∷ rest)) (sym same)
          (g, le_trans _ _ _ (above best value f fin.0 e) bound, (bound, later))
  ]

  -- Every quantised weight of finite shares is within 1 and 65535: a positive share never rounds to
  -- zero.
  pub to_u16-InU16 : (shares : Dict ℕ F) → All HasFinite shares → All InU16 (to_u16 float shares)
  unfolding to_u16
  to_u16-InU16 [] fin = tt
  to_u16-InU16 ((uid, value) ∷ rest) fin =
      elim (Bool-cases (le (top_of float value rest) (of_int 0))) [
        | inl e ↦ rw e tt
        | inr e ↦
            let (f, first, later) = top_of-bound value rest fin.0 fin.1 in
            rw e (
              quantise_all-InU16 (top_of float value rest) ((uid, value) ∷ rest) [] f e fin
                (first, later) tt)
      ]
