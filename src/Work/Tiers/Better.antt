-- ===== src/Work/Tiers/Better.antt =====
-- Better hardware loses no kind of work.
use microtensor_compute.Common.{
  ℕ, ◌*◌, ◌≤◌, ◌≡◌, refl, ◌∙◌, sym, ◌&&◌, not, Bool, true, false, arith, ltb, is_empty,
}
use microtensor_compute.Work.Tiers.{
  Tier, WorkKind, rental, Profile, minimums, reaches, kind_reasons, total_vram_gb, kind_eqb,
}
use microtensor_compute.Work.Tiers.Ladder.{meets, kind_reasons-meets}

-- At least as good in every quantity that a minimum is set for, with the same cards.
pub record IsBetter (p q : Profile) : Type 0 where
  pub same_cards : total_vram_gb q ≡ total_vram_gb p
  pub tier : (floor : Tier) → reaches p.tier floor ≡ true → reaches q.tier floor ≡ true
  pub vram_gb : p.vram_gb ≤ q.vram_gb
  pub ram_gb : p.ram_gb ≤ q.ram_gb
  pub disk_gb : p.disk_gb ≤ q.disk_gb
  pub cpu_cores : p.cpu_cores ≤ q.cpu_cores
  pub isolation_ok : p.isolation_ok ≡ true → q.isolation_ok ≡ true
  pub quotas_ok : p.quotas_ok ≡ true → q.quotas_ok ≡ true
  pub public_ipv4 : p.public_ipv4 ≡ true → q.public_ipv4 ≡ true
  pub port_range_ok : p.port_range_ok ≡ true → q.port_range_ok ≡ true
  pub bandwidth_mbps : p.bandwidth_mbps ≤ q.bandwidth_mbps

split_and : (a b : Bool) → a && b ≡ true → (a ≡ true) × (b ≡ true)
split_and true b h = (refl, h)
split_and false b h = cc

join_and : (a b : Bool) → a ≡ true → b ≡ true → a && b ≡ true
join_and a b ha hb = rw ha hb

infixl 20 ◌&→◌
◌&→◌ :
    {a b a' b' : Bool}
    → (a ≡ true → a' ≡ true)
    → (b ≡ true → b' ≡ true)
    → a && b ≡ true
    → a' && b' ≡ true
◌&→◌ {a} {b} {a'} {b'} f g h = let (x, y) = split_and a b h in join_and a' b' (f x) (g y)

enough_mono : (a b n : ℕ) → a ≤ b → not (ltb a n) ≡ true → not (ltb b n) ≡ true
enough_mono a b n l h = ground arith

ram_mono :
    (ratio a b t u : ℕ)
    → a ≤ b
    → u ≡ t
    → not (ltb (a * 10) (ratio * t)) ≡ true
    → not (ltb (b * 10) (ratio * u)) ≡ true
ram_mono ratio a b t u l e h = rw e (enough_mono (a * 10) (b * 10) (ratio * t) (omega arith) h)

need_mono :
    (n a b : Bool) → (a ≡ true → b ≡ true) → not (n && not a) ≡ true → not (n && not b) ≡ true
need_mono n a b f h = ground (arith, f)

rate_mono : (n : Bool) (a b m : ℕ) → a ≤ b → not (n && ltb a m) ≡ true → not (n && ltb b m) ≡ true
rate_mono n a b m l h = ground arith

tier_mono : (a b : Bool) → (a ≡ true → b ≡ true) → not (not a) ≡ true → not (not b) ≡ true
tier_mono a b f h = ground (arith, f)

meets_mono :
    (p q : Profile) (kind : WorkKind) → IsBetter p q → meets p kind ≡ true → meets q kind ≡ true
meets_mono p q kind better =
    let need = minimums kind in
    tier_mono _ _ (better.tier need.tier)
    &→ enough_mono p.vram_gb q.vram_gb (need.vram_gb * 1000) better.vram_gb
    &→ ram_mono need.ram_ratio p.ram_gb q.ram_gb (total_vram_gb p) (total_vram_gb q) better.ram_gb
        better.same_cards
    &→ enough_mono p.disk_gb q.disk_gb (need.disk_gb * 1000) better.disk_gb
    &→ enough_mono p.cpu_cores q.cpu_cores need.cpu_cores better.cpu_cores
    &→ need_mono need.isolation p.isolation_ok q.isolation_ok better.isolation_ok
    &→ need_mono need.quotas p.quotas_ok q.quotas_ok better.quotas_ok
    &→ need_mono need.public_ipv4 p.public_ipv4 q.public_ipv4 better.public_ipv4
    &→ need_mono need.port_range p.port_range_ok q.port_range_ok better.port_range_ok
    &→ rate_mono (ltb 0 need.bandwidth_mbps) p.bandwidth_mbps q.bandwidth_mbps
        (need.bandwidth_mbps * 1000) better.bandwidth_mbps

-- Better hardware loses no kind of work: with the same cards and at least as much of all else, a
-- rig is eligible for every kind that it was eligible for.
pub kind_reasons_mono :
    (p q : Profile) (opted_out : Bool) (kind : WorkKind)
    → IsBetter p q
    → is_empty (kind_reasons p opted_out kind) ≡ true
    → is_empty (kind_reasons q opted_out kind) ≡ true
kind_reasons_mono p q opted_out kind better h =
    let met : meets p kind && not (kind_eqb kind rental && opted_out) ≡ true =
      sym (kind_reasons-meets p opted_out kind) ∙ h in
    kind_reasons-meets q opted_out kind
    ∙ (let (m, r) = split_and _ _ met in join_and _ _ (meets_mono p q kind better m) r)
