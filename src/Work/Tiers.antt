-- ===== src/Work/Tiers.antt =====
-- validator/data/tiers.py: the tiers, the kinds of work and the least hardware that each needs.
-- Amounts of gigabytes and of Mbps are in thousandths, the ratio of system memory in tenths; a
-- rejection is its reason without the numbers that the message prints. The fields of a profile that
-- no test reads are left out.
pub mod Better
pub mod Ladder
pub mod Hardware
pub mod Examples
use microtensor_compute.Common.{
  ℕ, ◌*◌, ◌&&◌, ◌||◌, not, Bool, true, false, List, [], ◌∷◌, ◌++◌, Option, none, some, Dict, map,
  if◌then◌else◌, leb, ltb, eqb, is_empty, keep_if, contains,
}
use microtensor_compute.Common.Text.{Text, codes, text_eq, text_instance, lower}

pub data Tier : Type 0 where
  entry standard professional flagship : Tier

-- The place in TIER_ORDER.
abbrev pub tier_index : Tier → ℕ
tier_index entry = 0
tier_index standard = 1
tier_index professional = 2
tier_index flagship = 3

-- TIER_MEMORY_GB: the least and the greatest nominal memory of a tier's cards.
abbrev pub tier_memory_gb : Tier → ℕ × Option ℕ
tier_memory_gb entry = (8, some 16)
tier_memory_gb standard = (20, some 24)
tier_memory_gb professional = (32, some 48)
tier_memory_gb flagship = (80, none)

unfoldable pub tier_for_memory_gb : ℕ → Option Tier
tier_for_memory_gb nominal =
    if leb 80000 nominal
    then some flagship
    else if leb 32000 nominal
    then some professional
    else if leb 20000 nominal
    then some standard
    else if leb 8000 nominal
    then some entry
    else none

abbrev pub tier_at_least : Tier → Tier → Bool
tier_at_least tier floor = leb (tier_index floor) (tier_index tier)

pub data WorkKind : Type 0 where
  rental inference shaping mining : WorkKind

abbrev pub priority : List WorkKind
priority = rental ∷ inference ∷ shaping ∷ mining ∷ []

abbrev pub kind_eqb : WorkKind → WorkKind → Bool
kind_eqb rental rental = true
kind_eqb inference inference = true
kind_eqb shaping shaping = true
kind_eqb mining mining = true
kind_eqb _ _ = false

pub record Minimums : Type 0 where
  pub tier : Tier
  pub vram_gb : ℕ
  pub ram_ratio : ℕ
  pub disk_gb : ℕ
  pub cpu_cores : ℕ
  pub isolation : Bool
  pub quotas : Bool
  pub public_ipv4 : Bool
  pub port_range : Bool
  pub bandwidth_mbps : ℕ

-- MINIMUMS
abbrev pub minimums : WorkKind → Minimums
minimums inference = record {
  tier = entry;
  vram_gb = 8;
  ram_ratio = 10;
  disk_gb = 180;
  cpu_cores = 4;
  isolation = false;
  quotas = false;
  public_ipv4 = false;
  port_range = false;
  bandwidth_mbps = 0;
}
minimums shaping = record {
  tier = standard;
  vram_gb = 24;
  ram_ratio = 15;
  disk_gb = 500;
  cpu_cores = 8;
  isolation = false;
  quotas = false;
  public_ipv4 = false;
  port_range = false;
  bandwidth_mbps = 200;
}
minimums rental = record {
  tier = standard;
  vram_gb = 24;
  ram_ratio = 20;
  disk_gb = 1000;
  cpu_cores = 8;
  isolation = true;
  quotas = true;
  public_ipv4 = true;
  port_range = true;
  bandwidth_mbps = 200;
}
minimums mining = record {
  tier = entry;
  vram_gb = 8;
  ram_ratio = 10;
  disk_gb = 180;
  cpu_cores = 4;
  isolation = false;
  quotas = false;
  public_ipv4 = false;
  port_range = false;
  bandwidth_mbps = 0;
}

-- The card count is a number, so `max(gpu_count, 0)` is the count.
pub record Profile : Type 0 where
  pub gpu_count : ℕ
  pub vram_gb : ℕ
  pub tier : Option Tier
  pub ram_gb : ℕ
  pub disk_gb : ℕ
  pub disk_ssd : Bool
  pub cpu_cores : ℕ
  pub isolation_ok : Bool
  pub quotas_ok : Bool
  pub public_ipv4 : Bool
  pub port_range_ok : Bool
  pub bandwidth_mbps : ℕ
  pub kernel : ℕ × ℕ
  pub arch : Text
  pub os_id : Text
  pub os_version : Text

abbrev pub total_vram_gb : Profile → ℕ
total_vram_gb p = p.vram_gb * p.gpu_count

pub data Reason : Type 0 where
  bad_os old_kernel bad_arch small_disk slow_disk no_public_ipv4 below_entry : Reason
  low_tier low_vram low_ram low_disk few_cores no_isolation no_quotas no_address no_ports
        low_bandwidth :
      Reason
  declined : Reason

-- `if test: reasons.append(reason)`
unfoldable pub append_if : Bool → Reason → List Reason
append_if test reason = if test then reason ∷ [] else []

abbrev pub min_kernel : ℕ × ℕ
min_kernel = (5, 19)

abbrev pub kernel_ltb : ℕ × ℕ → ℕ × ℕ → Bool
kernel_ltb (a, b) (c, d) = ltb a c || (eqb a c && ltb b d)

abbrev pub supported_os : Text → Text → Bool
supported_os os_id os_version =
    text_eq os_id (codes "ubuntu")
    && (text_eq os_version (codes "22.04") || text_eq os_version (codes "24.04"))

abbrev pub has_tier : Option Tier → Bool
has_tier none = false
has_tier (some tier) = true

unfoldable pub host_reasons : Profile → List Reason
unfolding append_if
host_reasons p =
    append_if (not (supported_os (lower p.os_id) p.os_version)) bad_os
    ++ append_if (kernel_ltb p.kernel min_kernel) old_kernel
    ++ append_if (not (text_eq p.arch (codes "x86_64"))) bad_arch
    ++ append_if (ltb p.disk_gb 180000) small_disk
    ++ append_if (not p.disk_ssd) slow_disk
    ++ append_if (not p.public_ipv4) no_public_ipv4
    ++ append_if (not (has_tier p.tier)) below_entry

abbrev pub reaches : Option Tier → Tier → Bool
reaches none floor = false
reaches (some tier) floor = tier_at_least tier floor

unfoldable pub work_reasons : Profile → WorkKind → List Reason
unfolding append_if
work_reasons p kind =
    let need = minimums kind in
    append_if (not (reaches p.tier need.tier)) low_tier
    ++ append_if (ltb p.vram_gb (need.vram_gb * 1000)) low_vram
    ++ append_if (ltb (p.ram_gb * 10) (need.ram_ratio * total_vram_gb p)) low_ram
    ++ append_if (ltb p.disk_gb (need.disk_gb * 1000)) low_disk
    ++ append_if (ltb p.cpu_cores need.cpu_cores) few_cores
    ++ append_if (need.isolation && not p.isolation_ok) no_isolation
    ++ append_if (need.quotas && not p.quotas_ok) no_quotas
    ++ append_if (need.public_ipv4 && not p.public_ipv4) no_address
    ++ append_if (need.port_range && not p.port_range_ok) no_ports
    ++ append_if (ltb 0 need.bandwidth_mbps && ltb p.bandwidth_mbps (need.bandwidth_mbps * 1000))
        low_bandwidth

-- The reasons of one kind in `eligibility`.
unfoldable pub kind_reasons : Profile → Bool → WorkKind → List Reason
unfolding work_reasons append_if
kind_reasons p rental_opted_out kind =
    work_reasons p kind ++ append_if (kind_eqb kind rental && rental_opted_out) declined

unfoldable pub eligibility : Profile → Bool → List (WorkKind × List Reason)
unfolding kind_reasons
eligibility p rental_opted_out = map (λ kind. (kind, kind_reasons p rental_opted_out kind)) priority

unfoldable pub eligible_kinds : Profile → Bool → List WorkKind
unfolding eligibility keep_if
eligible_kinds p rental_opted_out =
    map (λ e. e.0) (keep_if (λ e. is_empty e.1) (eligibility p rental_opted_out))
