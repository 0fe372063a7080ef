-- ===== src/Work/Tiers/Examples.antt =====
-- A rig with two cards of the standard tier, and one with more of everything else.
use microtensor_compute.Common.{◌≡◌, refl, true, false, [], ◌∷◌, some, arith, is_empty}
use microtensor_compute.Common.Text.{codes}
use microtensor_compute.Work.Tiers.{
  standard, Profile, shaping, inference, mining, eligible_kinds, kind_reasons,
}
use microtensor_compute.Work.Tiers.Ladder.{ladder, meets, eligible_kinds-ladder}
use microtensor_compute.Work.Tiers.Better.{kind_reasons_mono}

abbrev rig : Profile
rig = record {
  gpu_count = 2;
  vram_gb = 24000;
  tier = some standard;
  ram_gb = 72000;
  disk_gb = 500000;
  disk_ssd = true;
  cpu_cores = 16;
  isolation_ok = false;
  quotas_ok = true;
  public_ipv4 = true;
  port_range_ok = true;
  bandwidth_mbps = 250000;
  kernel = (6, 8);
  arch = codes "x86_64";
  os_id = codes "ubuntu";
  os_version = codes "24.04";
}

abbrev upgraded : Profile
upgraded = record rig { ram_gb = 128000; isolation_ok = true }

eligible-rig : eligible_kinds rig false ≡ inference ∷ shaping ∷ mining ∷ []
unfolding eligible_kinds
eligible-rig = refl

eligible_kinds-ladder_example :
    eligible_kinds rig false ≡ ladder false (meets rig shaping) (meets rig inference)
eligible_kinds-ladder_example = eligible_kinds-ladder rig false

kind_reasons_mono_example : is_empty (kind_reasons upgraded false shaping) ≡ true
kind_reasons_mono_example =
    kind_reasons_mono rig upgraded false shaping
      (record {
        same_cards = refl;
        tier = λ floor h. h;
        vram_gb = omega arith;
        ram_gb = omega arith;
        disk_gb = omega arith;
        cpu_cores = omega arith;
        isolation_ok = λ h. refl;
        quotas_ok = λ h. h;
        public_ipv4 = λ h. h;
        port_range_ok = λ h. h;
        bandwidth_mbps = omega arith;
      })
      (unfold kind_reasons in refl)
