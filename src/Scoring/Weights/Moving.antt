-- ===== src/Scoring/Weights/Moving.antt =====
-- What the eligibility floor moves, from whom and to whom.
use microtensor_compute.Common.{
  nat_eq, ℕ, ◌+◌, ◌-◌, ◌≤◌, ◌≡◌, ◌≢◌, refl, sym, ap, ◌∙◌, ◌⊎◌, inl, inr, ◌||◌, not, List, [], ◌∷◌,
  ◌++◌, Option, none, some, Dict, arith, leb, eqb_iff, has_key, insert, All, All-mono, Distinct,
  append-nil, append_assoc, Bool-cases, length, is_empty, leb→le, true, false, Bool,
}
use microtensor_compute.Scoring.Weights.{weight_at, floor_loop, missing_uids, eligibility_floor}
use microtensor_compute.Scoring.Weights.Floor.{
  IsPending, give, total_weight, weight_at-insert, weight_at-give_donor, total-floor_loop,
  missing_uids-Pending, missing_uids-Distinct,
}

-- What a run of the loop over `us` comes to: it floors the first of them.
record IsGiven (donor : ℕ) (us : List ℕ) (u16 : Dict ℕ ℕ) (floored : List ℕ) (r : Dict ℕ ℕ × List ℕ)
    : Type 0 where
  given : List ℕ
  listed : r.1 ≡ floored ++ given
  donated : weight_at donor r.0 + length given ≡ weight_at donor u16
  ones : All (λ uid. weight_at uid r.0 ≡ 1) given
  ended : (given ≡ us) ⊎ (weight_at donor r.0 ≤ 1)
  spared : (given ≡ []) ⊎ (1 ≤ weight_at donor r.0)

weight_at-give :
    (donor uid other : ℕ) (u16 : Dict ℕ ℕ)
    → uid ≢ other
    → other ≢ donor
    → weight_at other (give donor uid u16) ≡ weight_at other u16
weight_at-give donor uid other u16 h k = ground (
  arith,
  weight_at-insert uid other 1 (insert donor (weight_at donor u16 - 1) u16),
  weight_at-insert donor other (weight_at donor u16 - 1) u16,
  eqb_iff uid other,
  eqb_iff donor other,
)

weight_at-give_self : (donor uid : ℕ) (u16 : Dict ℕ ℕ) → weight_at uid (give donor uid u16) ≡ 1
weight_at-give_self donor uid u16 = ground (
  arith,
  weight_at-insert uid uid 1 (insert donor (weight_at donor u16 - 1) u16),
  eqb_iff uid uid,
)

-- A uid that is neither the donor nor waits keeps its weight.
weight_at-floor_loop :
    (donor other : ℕ) (us : List ℕ) (u16 : Dict ℕ ℕ) (floored : List ℕ)
    → All (λ u. other ≢ u) us
    → other ≢ donor
    → weight_at other (floor_loop donor us u16 floored).0 ≡ weight_at other u16
unfolding floor_loop
weight_at-floor_loop donor other [] u16 floored a h = refl
weight_at-floor_loop donor other (uid ∷ us) u16 floored a h =
    elim (Bool-cases (leb (weight_at donor u16) 1)) [
      | inl poor ↦ rw poor refl
      | inr rich ↦ rw rich (
          weight_at-floor_loop donor other us (give donor uid u16) (floored ++ uid ∷ []) a.1 h
          ∙ weight_at-give donor uid other u16 (λ e. a.0 (sym e)) h)
    ]

left_over : (w : ℕ) → leb w 1 ≡ false → 2 ≤ w
left_over w h = ground arith

floor_loop-IsGiven :
    (donor : ℕ) (us : List ℕ) (u16 : Dict ℕ ℕ) (floored : List ℕ)
    → Distinct us
    → All (λ u. u ≢ donor) us
    → IsGiven donor us u16 floored (floor_loop donor us u16 floored)
unfolding floor_loop
floor_loop-IsGiven donor [] u16 floored d a = record {
  given = [];
  listed = sym (append-nil floored);
  donated = omega arith;
  ones = tt;
  ended = inl refl;
  spared = inl refl;
}
floor_loop-IsGiven donor (uid ∷ us) u16 floored d a =
    elim (Bool-cases (leb (weight_at donor u16) 1)) [
      | inl poor ↦ rw poor (record {
        given = [];
        listed = sym (append-nil floored);
        donated = omega arith;
        ones = tt;
        ended = inr (leb→le (weight_at donor u16) 1 poor);
        spared = inl refl;
      })
      | inr rich ↦
          let next = give donor uid u16 in
          let later = floor_loop-IsGiven donor us next (floored ++ uid ∷ []) d.1 a.1 in
          let less = weight_at-give_donor donor uid u16 a.0 in
          let more = left_over (weight_at donor u16) rich in
          rw rich (record {
            given = uid ∷ later.given;
            listed = later.listed ∙ append_assoc floored (uid ∷ []) later.given;
            donated = omega (arith, later.donated, less, more);
            ones = (
              weight_at-floor_loop donor uid us next (floored ++ uid ∷ []) d.0 a.0
                  ∙ weight_at-give_self donor uid u16,
              later.ones,
            );
            ended = elim later.ended [ inl e ↦ inl (ap (◌∷◌ uid) e) | inr e ↦ inr e ];
            spared = inr (elim later.spared [
              | inl e ↦
                  let none_given = ap length e in
                  omega (arith, later.donated, less, more, none_given)
              | inr e ↦ e
            ]);
          })
    ]

abbrev pub held_by : Option ℕ → Dict ℕ ℕ → ℕ
held_by none u16 = 0
held_by (some donor) u16 = weight_at donor u16

-- What the floor does to the weights, with the uids that it names.
abbrev pub IsMoved : Dict ℕ ℕ → List ℕ → Option ℕ → Dict ℕ ℕ × List ℕ → Type 0
IsMoved u16 active donor r =
    (total_weight r.0 ≡ total_weight u16)
    × (held_by donor r.0 + length r.1 ≡ held_by donor u16)
    × All (λ uid. weight_at uid r.0 ≡ 1) r.1
    × ((r.1 ≡ missing_uids u16 active donor) ⊎ (held_by donor r.0 ≤ 1))
    × ((r.1 ≡ []) ⊎ (1 ≤ held_by donor r.0))

no_key-weight : (k : ℕ) (m : Dict ℕ ℕ) → not (has_key k m) ≡ true → weight_at k m ≡ 0
unfolding weight_at
no_key-weight k m h = ground arith

unmoved :
    (us : List ℕ) (w : ℕ) (keyless : Bool)
    → is_empty us || keyless ≡ true
    → ((keyless ≡ true) → w ≡ 0)
    → ([] ≡ us) ⊎ (w ≤ 1)
unmoved [] w keyless h k = inl refl
unmoved (u ∷ us) w keyless h k = inr (omega (arith, k h))

-- The floor moves weight and makes none. The donor loses one for each uid that is named, and each
-- of these then has a weight of one. All active uids that had none and are not the donor are named,
-- or the donor is down to one or had none; and where some uid is named, the donor keeps one at
-- least. The active uids are a set.
pub total-eligibility_floor :
    (u16 : Dict ℕ ℕ) (active : List ℕ) (donor : Option ℕ)
    → Distinct active
    → IsMoved u16 active donor (eligibility_floor u16 active donor)
unfolding eligibility_floor
total-eligibility_floor u16 active none d = (refl, refl, tt, inr (omega arith), inl refl)
total-eligibility_floor u16 active (some donor) d =
    let us = missing_uids u16 active (some donor) in
    let apart =
      All-mono (IsPending donor u16) (λ u. u ≢ donor) us (λ u p. p.1)
        (missing_uids-Pending u16 active donor) in
    let distinct = missing_uids-Distinct u16 active donor d in
    elim (Bool-cases (is_empty us || not (has_key donor u16))) [
      | inl e ↦ rw e (
        refl,
        omega arith,
        tt,
        unmoved us (weight_at donor u16) (not (has_key donor u16)) e (no_key-weight donor u16),
        inl refl,
      )
      | inr e ↦
          let g = floor_loop-IsGiven donor us u16 [] distinct apart in
          rw (e, g.listed)
            (
              total-floor_loop donor us u16 [] distinct (missing_uids-Pending u16 active donor),
              g.donated,
              g.ones,
              g.ended,
              g.spared,
            )
    ]
