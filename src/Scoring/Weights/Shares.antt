-- ===== src/Scoring/Weights/Shares.antt =====
-- The shares of finite scores whose total is finite are finite.
use microtensor_compute.Common.{
  nat_eq, ℕ, ◌≡◌, inl, inr, true, [], ◌∷◌, Option, none, some, Dict, arith, insert, lookup,
  from_option, eqb, All, All-mono, Bool-cases,
}
use microtensor_compute.Common.Float.{Float, max_f, min_f}
use microtensor_compute.Scoring.Weights.{
  keep_positive, total_from, scale_by, normalise, without, with_reserve,
}
use microtensor_compute.Scoring.Weights.Quantise.{HasFinite, above, zero_fin, one_fin, part_lem}

module _ (float : Float) where
  open float use {
    F, of_int, add, sub, mul, div, le, is_finite, le_refl, le_trans, finite_between, of_int_mono,
    mul-zero_left, mul-one_left, mul_finite, mul_mono, le-add, add_shares, sub_nonneg,
  }

  abbrev HasAmount : ℕ × F → Type 0
  HasAmount (uid, value) = le (of_int 0) value ≡ true

  abbrev IsPart : F → Type 0
  IsPart a = (le (of_int 0) a ≡ true) × (le a (of_int 1) ≡ true)

  abbrev HasPart : ℕ × F → Type 0
  HasPart (uid, value) = IsPart value

  abbrev IsBelow : F → ℕ × F → Type 0
  IsBelow top (uid, value) = le value top ≡ true

  keep_positive-Amount :
      (scores : Dict ℕ F)
      → All (HasFinite float) scores
      → All HasAmount (keep_positive float scores)
  unfolding keep_positive
  keep_positive-Amount [] f = tt
  keep_positive-Amount ((uid, value) ∷ rest) f = elim (Bool-cases (le value (of_int 0))) [
    | inl e ↦ rw e (keep_positive-Amount rest f.1)
    | inr e ↦
        rw e (above float (of_int 0) value (zero_fin float) f.0 e, keep_positive-Amount rest f.1)
  ]

  -- Each term of a sum of amounts, and what it starts from, is no more than the sum.
  total_from-Below :
      (acc : F) (shares : Dict ℕ F)
      → is_finite (total_from float acc shares) ≡ true
      → le (of_int 0) acc ≡ true
      → All HasAmount shares
      → (le acc (total_from float acc shares) ≡ true)
        × All (IsBelow (total_from float acc shares)) shares
  unfolding total_from
  total_from-Below acc [] f h a = (le_refl acc f, tt)
  total_from-Below acc ((uid, value) ∷ rest) f h a =
      let sum = le-add acc value h a.0 in
      let later = total_from-Below (add acc value) rest f (le_trans _ _ _ h sum.0) a.1 in
      (le_trans _ _ _ sum.0 later.0, (le_trans _ _ _ sum.1 later.0, later.1))

  scale_by-All :
      (P Q : ℕ × F → Type 0) (f : F → F) (shares : Dict ℕ F)
      → ((uid : ℕ) (value : F) → P (uid, value) → Q (uid, f value))
      → All P shares
      → All Q (scale_by float f shares)
  unfolding scale_by
  scale_by-All P Q f [] step a = tt
  scale_by-All P Q f ((uid, value) ∷ rest) step a =
      (step uid value a.0, scale_by-All P Q f rest step a.1)

  both :
      (P Q : ℕ × F → Type 0) (shares : Dict ℕ F)
      → All P shares
      → All Q shares
      → All (λ kv. P kv × Q kv) shares
  both P Q [] a b = tt
  both P Q (kv ∷ rest) a b = ((a.0, b.0), both P Q rest a.1 b.1)

  abbrev pub positive_total : Dict ℕ F → F
  positive_total scores = total_from float (of_int 0) (keep_positive float scores)

  normalise-Part :
      (scores : Dict ℕ F)
      → All (HasFinite float) scores
      → is_finite (positive_total scores) ≡ true
      → All HasPart (normalise float scores)
  unfolding normalise
  normalise-Part scores f t =
      let amounts = keep_positive-Amount scores f in
      let below =
        (total_from-Below (of_int 0) (keep_positive float scores) t (le_refl _ (zero_fin float))
          amounts).1 in
      elim (Bool-cases (le (positive_total scores) (of_int 0))) [
        | inl e ↦ rw e tt
        | inr e ↦ rw e (
            scale_by-All (λ kv. HasAmount kv × IsBelow (positive_total scores) kv) HasPart _
              (keep_positive float scores)
              (λ uid value h. part_lem float (positive_total scores) value t e h.0 h.1)
              (both HasAmount (IsBelow (positive_total scores)) (keep_positive float scores) amounts
                below))
      ]

  without-All :
      (P : ℕ × F → Type 0) (reserve : ℕ) (shares : Dict ℕ F)
      → All P shares
      → All P (without float reserve shares)
  unfolding without
  without-All P reserve [] a = tt
  without-All P reserve ((uid, value) ∷ rest) a = elim (Bool-cases (eqb uid reserve)) [
    | inl e ↦ rw e (without-All P reserve rest a.1)
    | inr e ↦ rw e (a.0, without-All P reserve rest a.1)
  ]

  insert-Finite :
      (uid : ℕ) (value : F) (shares : Dict ℕ F)
      → is_finite value ≡ true
      → All (HasFinite float) shares
      → All (HasFinite float) (insert uid value shares)
  unfolding insert
  insert-Finite uid value [] f a = (f, tt)
  insert-Finite uid value ((other, given) ∷ rest) f a = elim (Bool-cases (eqb other uid)) [
    | inl e ↦ rw e (f, a.1)
    | inr e ↦ rw e (a.0, insert-Finite uid value rest f a.1)
  ]

  zero-Part : IsPart (of_int 0)
  zero-Part = (le_refl _ (zero_fin float), of_int_mono 0 1 (omega arith) (omega arith))

  one-Part : IsPart (of_int 1)
  one-Part = (of_int_mono 0 1 (omega arith) (omega arith), le_refl _ (one_fin float))

  lookup-Part :
      (uid : ℕ) (shares : Dict ℕ F)
      → All HasPart shares
      → IsPart (from_option (of_int 0) (lookup uid shares))
  unfolding lookup
  lookup-Part uid [] a = zero-Part
  lookup-Part uid ((other, value) ∷ rest) a = elim (Bool-cases (eqb other uid)) [
    | inl e ↦ rw e a.0
    | inr e ↦ rw e (lookup-Part uid rest a.1)
  ]

  part_finite : (a : F) → IsPart a → is_finite a ≡ true
  part_finite a h = finite_between _ a _ (zero_fin float) (one_fin float) h.0 h.1

  mul-Part : (a b : F) → IsPart a → IsPart b → IsPart (mul a b)
  mul-Part a b h k =
      let whole : is_finite (mul (of_int 1) (of_int 1)) ≡ true =
        rw (mul-one_left (of_int 1)) (one_fin float) in
      let fin = mul_finite a (of_int 1) b (of_int 1) h.0 h.1 k.0 k.1 whole in
      let z = le_refl _ (zero_fin float) in
      (
        rw (mul-zero_left (of_int 0) (zero_fin float)) at (mul_mono _ _ _ _ z h.0 z k.0 fin),
        rw (mul-one_left (of_int 1)) at (mul_mono a (of_int 1) b (of_int 1) h.0 h.1 k.0 k.1 whole),
      )

  -- What is held back, a share.
  held-Part :
      (held_share : F)
      → is_finite held_share ≡ true
      → IsPart (min_f float (max_f float held_share (of_int 0)) (of_int 1))
  held-Part held f = elim (Bool-cases (le (of_int 0) held)) [
    | inl e ↦
        rw e
          (elim (Bool-cases (le held (of_int 1))) [ inl k ↦ rw k (e, k) | inr k ↦ rw k one-Part ])
    | inr e ↦ rw (e, zero-Part.1) zero-Part
  ]

  pub with_reserve-Finite :
      (scores : Dict ℕ F) (reserve : Option ℕ) (held_share : F)
      → All (HasFinite float) scores
      → is_finite (positive_total scores) ≡ true
      → is_finite held_share ≡ true
      → All (HasFinite float) (with_reserve float (normalise float scores) reserve held_share)
  unfolding with_reserve
  with_reserve-Finite scores none held_share f t h =
      All-mono HasPart (HasFinite float) (normalise float scores) (λ kv p. part_finite kv.1 p)
        (normalise-Part scores f t)
  with_reserve-Finite scores (some reserve) held_share f t h =
      let shares = normalise float scores in
      let parts = normalise-Part scores f t in
      let held = min_f float (max_f float held_share (of_int 0)) (of_int 1) in
      let hp = held-Part held_share h in
      let left = sub_nonneg (of_int 1) held (one_fin float) hp.0 hp.1 in
      let scaled =
        scale_by float (λ value. mul value (sub (of_int 1) held)) (without float reserve shares) in
      let small : All HasPart scaled =
        scale_by-All HasPart HasPart (λ value. mul value (sub (of_int 1) held))
          (without float reserve shares) (λ uid value p. mul-Part value _ p left)
          (without-All HasPart reserve shares parts) in
      let own = lookup-Part reserve scaled small in
      elim (Bool-cases (le held_share (of_int 0))) [
        | inl e ↦
            rw e (All-mono HasPart (HasFinite float) shares (λ kv p. part_finite kv.1 p) parts)
        | inr e ↦ rw e (
            insert-Finite reserve _ scaled (add_shares _ _ own.0 own.1 hp.0 hp.1)
              (All-mono HasPart (HasFinite float) scaled (λ kv p. part_finite kv.1 p) small))
      ]
