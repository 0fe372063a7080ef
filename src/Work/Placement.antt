-- ===== src/Work/Placement.antt =====
-- validator/work/placement.py: which rig a job is placed on, and on which of its cards.
pub mod Once
pub mod Cards
pub mod Choosing
pub mod Ranking
pub mod Examples
use microtensor_compute.Common.{
  ℕ, suc, ◌-◌, ◌+◌, max, ◌&&◌, ◌||◌, not, Bool, true, false, List, [], ◌∷◌, ◌++◌, Option, none,
  some, Dict, map, if◌then◌else◌, leb, ltb, eqb, is_empty, keep_if, all_of, any_of, contains,
  length, take, lookup, insert, has_key, from_option,
}
use microtensor_compute.Common.Int.{ℤ, sub_ℕ, leb_ℤ}
use microtensor_compute.Common.Text.{Text, codes, text_eq, text_instance}
use microtensor_compute.Common.Sort.{insert_sorted, sorted_by}
use microtensor_compute.Work.Tiers.{WorkKind, rental, inference, shaping, mining, Reason, kind_eqb}
use microtensor_compute.Work.Rigs.{
  JobRecord, Rig, RigReason, whole_node_of, only_available, kind_of, ineligible_reason, occupancy,
  can_share, can_displace,
}

-- The key that candidates are sorted by; the signs in `rank_rig` turn the order round, so less that
-- is displaced comes first and then more reliability, more uptime and more free cards. `displaced`
-- counts a job once for each chosen card on which it stands, as `rank_rig` does: it is not a number
-- of jobs.
pub record Rank : Type 0 where
  pub displaced : ℕ
  pub reliability : ℕ
  pub uptime : ℕ
  pub free : ℤ

-- The order of the tuples that `rank_rig` returns.
unfoldable pub rank_leb : Rank → Rank → Bool
rank_leb a b =
    ltb a.displaced b.displaced
    || (eqb a.displaced b.displaced
        && (ltb b.reliability a.reliability
            || (eqb b.reliability a.reliability
                && (ltb b.uptime a.uptime || (eqb b.uptime a.uptime && leb_ℤ b.free a.free)))))

pub record Placed : Type 0 where
  pub rig_id : Text
  pub gpu_uuids : List Text
  pub displaced : List Text

-- `sorted(set(xs))`
unfoldable pub text_leb : Text → Text → Bool
text_leb [] ys = true
text_leb (x ∷ xs) [] = false
text_leb (x ∷ xs) (y ∷ ys) = ltb x y || (eqb x y && text_leb xs ys)

unfoldable pub distinct : List Text → List Text
unfolding contains text_eq
distinct [] = []
distinct (x ∷ xs) = let rest = distinct xs in if contains x rest then rest else x ∷ rest

abbrev pub sorted_set : List Text → List Text
sorted_set xs = sorted_by text_leb (distinct xs)

abbrev pub Card : Type 0
Card = Text × List JobRecord

abbrev pub free_cards : List Card → List Card
free_cards table = keep_if (λ c. is_empty c.1) table

abbrev pub shareable_cards : WorkKind → List Card → List Card
shareable_cards kind table = keep_if (λ c. not (is_empty c.1) && can_share c.1 kind) table

abbrev pub displaceable_cards : WorkKind → List Card → List Card
displaceable_cards kind table = keep_if (λ c. not (is_empty c.1) && can_displace c.1 kind) table

-- The ids of the jobs on the cards.
unfoldable pub job_ids : List Card → List Text
job_ids [] = []
job_ids (card ∷ cards) = map (λ job. job.job_id) card.1 ++ job_ids cards

-- The cards of a rig for a job of `needed` cards: free ones first, then cards to share, then
-- cards whose jobs are displaced. `take` of a difference that stops at 0 is what the tests
-- `len(chosen) < needed` and the slices come to.
unfoldable pub chosen_kept : WorkKind → ℕ → List Card → List Card
unfolding keep_if can_share
chosen_kept kind needed table =
    let free = take needed (free_cards table) in
    free ++ take (needed - length free) (shareable_cards kind table)

unfoldable pub chosen_displaced : WorkKind → ℕ → List Card → List Card
unfolding keep_if can_displace chosen_kept
chosen_displaced kind needed table =
    take (needed - length (chosen_kept kind needed table)) (displaceable_cards kind table)

pub data Assessment : Type 0 where
  rejected : Text → RigReason → Assessment
  candidate : Rank → Placed → Assessment

-- The rest of a turn of the loop of `choose`, for a rig that is eligible.
unfoldable pub fit : WorkKind → ℕ → Bool → Rig → ℕ → List Card → Assessment
unfolding chosen_kept chosen_displaced job_ids distinct keep_if sorted_by text_leb
fit kind needed whole_node rig uptime table =
    let kept = chosen_kept kind needed table in
    let taken = chosen_displaced kind needed table in
    let chosen = kept ++ taken in
    let displaced = job_ids taken in
    if whole_node && not (eqb (length table) needed)
    then rejected rig.id (whole_node_of (length table))
    else if ltb (length chosen) needed
    then rejected rig.id (only_available (length chosen))
    else candidate
        (record {
          displaced = length displaced;
          reliability = rig.reliability;
          uptime = uptime;
          free = sub_ℕ (length (free_cards table)) (length chosen);
        })
        (record {
          rig_id = rig.id;
          gpu_uuids = map (λ c. c.0) chosen;
          displaced = sorted_set displaced;
        })

-- A turn of the loop of `choose`. `uptime` is the ledger's days, 0 without a ledger.
unfoldable pub assess :
    WorkKind → ℕ → Bool → (Text → ℕ) → (Text → List JobRecord) → Rig → Assessment
unfolding ineligible_reason occupancy fit
assess kind needed whole_node uptime jobs_of rig = elim (ineligible_reason rig kind) [
  | some reason ↦ rejected rig.id reason
  | none ↦ fit kind needed whole_node rig (uptime rig.id) (occupancy rig (jobs_of rig.id))
]

unfoldable pub candidates : List Assessment → List (Rank × Placed)
candidates [] = []
candidates (rejected id reason ∷ rest) = candidates rest
candidates (candidate rank placed ∷ rest) = (rank, placed) ∷ candidates rest

unfoldable pub reasons : List Assessment → List (Text × RigReason)
reasons [] = []
reasons (rejected id reason ∷ rest) = (id, reason) ∷ reasons rest
reasons (candidate rank placed ∷ rest) = reasons rest

-- A Placement: one that is `ok`, or the reason why there is none.
pub data Placement : Type 0 where
  placed : Placed → Placement
  unknown_kind : Text → Placement
  no_rig : List (Text × RigReason) → Placement

abbrev pub best : List (Text × RigReason) → List (Rank × Placed) → Placement
best why [] = no_rig (take 8 why)
best why (c ∷ cs) = placed c.1

unfoldable pub choose :
    Text → ℕ → List Rig → (Text → ℕ) → (Text → List JobRecord) → Bool → Placement
unfolding kind_of assess candidates reasons rank_leb sorted_by
choose kind_text gpu_count roster uptime jobs_of whole_node = elim (kind_of kind_text) [
  | none ↦ unknown_kind kind_text
  | some kind ↦
      let assessed = map (assess kind (max 1 gpu_count) whole_node uptime jobs_of) roster in
      best (reasons assessed) (sorted_by (λ a b. rank_leb a.0 b.0) (candidates assessed))
]
