-- ===== src/Work/Tiers/Hardware.antt =====
-- The tier of a card from its memory.
use microtensor_compute.Common.{
  ℕ, ◌*◌, ◌≤◌, ◌<◌, inl, inr, Option, none, some, arith, leb, Bool-cases,
}
use microtensor_compute.Work.Tiers.{
  Tier, entry, standard, professional, flagship, tier_for_memory_gb, tier_memory_gb, tier_index,
}

-- What the tier of a card says of its memory.
abbrev pub IsTierOf : ℕ → Option Tier → Type 0
IsTierOf nominal none = nominal < (tier_memory_gb entry).0 * 1000
IsTierOf nominal (some tier) =
    ((tier_memory_gb tier).0 * 1000 ≤ nominal)
    × ((other : Tier)
        → (tier_memory_gb other).0 * 1000 ≤ nominal
        → tier_index other ≤ tier_index tier)

above_flagship : (other : Tier) (n : ℕ) → (tier_memory_gb other).0 * 1000 ≤ n → tier_index other ≤ 3
above_flagship entry n h = omega arith
above_flagship standard n h = omega arith
above_flagship professional n h = omega arith
above_flagship flagship n h = omega arith

above_professional :
    (other : Tier) (n : ℕ) → n < 80000 → (tier_memory_gb other).0 * 1000 ≤ n → tier_index other ≤ 2
above_professional entry n a h = omega arith
above_professional standard n a h = omega arith
above_professional professional n a h = omega arith
above_professional flagship n a h = omega arith

above_standard :
    (other : Tier) (n : ℕ) → n < 32000 → (tier_memory_gb other).0 * 1000 ≤ n → tier_index other ≤ 1
above_standard entry n a h = omega arith
above_standard standard n a h = omega arith
above_standard professional n a h = omega arith
above_standard flagship n a h = omega arith

above_entry :
    (other : Tier) (n : ℕ) → n < 20000 → (tier_memory_gb other).0 * 1000 ≤ n → tier_index other ≤ 0
above_entry entry n a h = omega arith
above_entry standard n a h = omega arith
above_entry professional n a h = omega arith
above_entry flagship n a h = omega arith

-- The thresholds of `tier_for_memory_gb` are those of the table TIER_MEMORY_GB: a card is in the
-- highest tier whose least memory it has, and in none if it has less than the entry tier's.
pub tier_for_memory_gb-IsTierOf : (nominal : ℕ) → IsTierOf nominal (tier_for_memory_gb nominal)
unfolding tier_for_memory_gb
tier_for_memory_gb-IsTierOf n = elim (Bool-cases (leb 80000 n)) [
  | inl a ↦ rw a (ground arith, λ other. above_flagship other n)
  | inr a ↦ elim (Bool-cases (leb 32000 n)) [
    | inl b ↦ rw (a, b) (ground arith, λ other. above_professional other n (ground arith))
    | inr b ↦ elim (Bool-cases (leb 20000 n)) [
      | inl c ↦ rw (a, b, c) (ground arith, λ other. above_standard other n (ground arith))
      | inr c ↦ elim (Bool-cases (leb 8000 n)) [
        | inl d ↦ rw (a, b, c, d) (ground arith, λ other. above_entry other n (ground arith))
        | inr d ↦ rw (a, b, c, d) (ground arith)
      ]
    ]
  ]
]
