-- ===== src/Work/Placement/Ranking.antt =====
-- The placement is the best of the candidates.
use microtensor_compute.Common.{
  ℕ, ◌≡◌, ◌⊎◌, Bool, true, List, Option, none, some, In, All, max, ◌<◌,
}
use microtensor_compute.Common.Int.{leb_ℤ}
use microtensor_compute.Common.Text.{Text, text_instance}
use microtensor_compute.Work.Tiers.{WorkKind}
use microtensor_compute.Work.Rigs.{JobRecord, Rig, ineligible_reason, occupancy}
use microtensor_compute.Work.Placement.{
  Placed, Placement, placed, Rank, rank_leb, candidates, candidate,
}
use microtensor_compute.Work.Placement.Choosing.{assessed}
use microtensor_compute.Work.Placement.Cards.{Assesses}

abbrev by_rank : Rank × Placed → Rank × Placed → Bool
by_rank a b = rank_leb a.0 b.0

placed_of : Placement → Option Placed
placed_of (placed p) = some p
placed_of _ = none

-- Less is displaced; or as much and the rig is more reliable; or it is as reliable and longer up;
-- or as long and it has no fewer cards left free.
abbrev pub IsBefore : Rank → Rank → Type 0
IsBefore a b =
    (a.displaced < b.displaced)
    ⊎ ((a.displaced ≡ b.displaced)
        × ((b.reliability < a.reliability)
            ⊎ ((b.reliability ≡ a.reliability)
                × ((b.uptime < a.uptime)
                    ⊎ ((b.uptime ≡ a.uptime) × (leb_ℤ b.free a.free ≡ true))))))

module _ (kind : WorkKind) (kind_text : Text) (gpu_count : ℕ) (roster : List Rig)
    (uptime : Text → ℕ) (jobs_of : Text → List JobRecord) (whole_node : Bool) where
  -- A placement that a rig of the roster offers, with its key.
  abbrev pub IsOffered : Rank × Placed → Type 0
  IsOffered (r, p) =
      (rig : Rig) × In rig roster
      × (ineligible_reason rig kind ≡ none)
      × Assesses kind (max 1 gpu_count) rig (uptime rig.id) (occupancy rig (jobs_of rig.id))
          (candidate r p)

  abbrev offers : List (Rank × Placed)
  offers = candidates (assessed kind_text gpu_count roster uptime jobs_of whole_node kind)

  -- What is offered, and that the placement comes before the rest of it.
  abbrev pub IsBest : List (Rank × Placed) → Placed → Type 0
  IsBest cs p = (r : Rank) × In (r, p) cs × All (λ d. IsBefore r d.0) cs × All IsOffered cs
