-- ===== src/Work/Placement/Cards.antt =====
-- Which cards of a rig are chosen.
use microtensor_compute.Common.{
  ℕ, suc, ◌-◌, ◌≤◌, ◌<◌, ◌≡◌, ◌≢◌, refl, ap, ◌∙◌, inl, inr, ◌&&◌, not, Bool, true, List, [], ◌∷◌,
  ◌++◌, none, some, arith, ltb, eqb, is_empty, all_of, length, take, map, Bool-cases, Option-cases,
  Distinct, In, All, All-mono, All-take, All-append, keep_if-Holds, length-take, length-append,
}
use microtensor_compute.Common.Int.{sub_ℕ}
use microtensor_compute.Common.Text.{text_instance}
use microtensor_compute.Work.Tiers.{WorkKind, rental, inference, shaping, mining}
use microtensor_compute.Work.Rigs.{
  JobRecord, Rig, kind_of, can_share, can_displace, can_displace_job, rank,
}
use microtensor_compute.Work.Placement.Once.{
  OfTable, chosen_kept-In, chosen_displaced-In, right, uuids_of, chosen-Distinct,
}
use microtensor_compute.Work.Placement.{
  Card, Rank, Placed, Assessment, rejected, candidate, free_cards, shareable_cards,
  displaceable_cards, job_ids, chosen_kept, chosen_displaced, fit, sorted_set,
}

-- A job that may be displaced for the kind: its own kind is known, of lower priority, and neither
-- rental nor inference.
abbrev pub IsOutranked : WorkKind → JobRecord → Type 0
IsOutranked kind job =
    (current : WorkKind) × (kind_of job.kind ≡ some current)
    × (rank kind < rank current)
    × (current ≢ rental)
    × (current ≢ inference)

-- A card whose jobs stay: it has none, or the new job may share it.
abbrev pub IsKept : WorkKind → Card → Type 0
IsKept kind card = can_share card.1 kind ≡ true

abbrev pub IsTaken : WorkKind → Card → Type 0
IsTaken kind card = All (IsOutranked kind) card.1

-- What is true of a placement on a rig with this table of cards.
pub record IsFit (kind : WorkKind) (needed : ℕ) (rig : Rig) (table : List Card) (p : Placed)
    : Type 0 where
  pub kept : List Card
  pub taken : List Card
  pub on_rig : p.rig_id ≡ rig.id
  pub enough : length p.gpu_uuids ≡ needed
  pub once : Distinct p.gpu_uuids
  pub cards : p.gpu_uuids ≡ map (λ c. c.0) (kept ++ taken)
  pub in_table : All (λ c. In c table) (kept ++ taken)
  pub kept_shared : All (IsKept kind) kept
  pub taken_outranked : All (IsTaken kind) taken
  pub displaced : p.displaced ≡ sorted_set (job_ids taken)

displaces-lower :
    (kind current : WorkKind)
    → can_displace_job kind (some current) ≡ true
    → (rank kind < rank current) × (current ≢ rental) × (current ≢ inference)
displaces-lower kind rental h = ground arith
displaces-lower kind inference h = ground arith
displaces-lower kind shaping h = (ground arith, λ q. cc, λ q. cc)
displaces-lower kind mining h = (ground arith, λ q. cc, λ q. cc)

can_displace_job-IsOutranked :
    (kind : WorkKind) (job : JobRecord)
    → can_displace_job kind (kind_of job.kind) ≡ true
    → IsOutranked kind job
can_displace_job-IsOutranked kind job h = elim (Option-cases (kind_of job.kind)) [
  | inl e ↦ let h' : can_displace_job kind none ≡ true = rw e at h in cc
  | inr (current, e) ↦
      let h' : can_displace_job kind (some current) ≡ true = rw e at h in
      let (lower, r, i) = displaces-lower kind current h' in (current, e, lower, r, i)
]

All-IsOutranked :
    (kind : WorkKind) (js : List JobRecord)
    → all_of (λ job. can_displace_job kind (kind_of job.kind)) js ≡ true
    → All (IsOutranked kind) js
unfolding all_of
All-IsOutranked kind [] h = tt
All-IsOutranked kind (job ∷ js) h =
    (can_displace_job-IsOutranked kind job (ground arith), All-IsOutranked kind js (ground arith))

can_displace-IsTaken :
    (kind : WorkKind) (jobs : List JobRecord)
    → can_displace jobs kind ≡ true
    → All (IsOutranked kind) jobs
unfolding can_displace
can_displace-IsTaken kind jobs h = All-IsOutranked kind jobs (ground arith)

free-IsKept : (kind : WorkKind) (card : Card) → is_empty card.1 ≡ true → IsKept kind card
unfolding can_share
free-IsKept kind card h = rw h refl

chosen_kept-IsKept :
    (kind : WorkKind) (n : ℕ) (table : List Card) → All (IsKept kind) (chosen_kept kind n table)
unfolding chosen_kept
chosen_kept-IsKept kind n table =
    All-append (IsKept kind) (take n (free_cards table)) _
      (All-take (IsKept kind) n (free_cards table) (
        All-mono _ (IsKept kind) (free_cards table) (free-IsKept kind)
          (keep_if-Holds (λ c. is_empty c.1) table)))
      (All-take (IsKept kind) (n - length (take n (free_cards table))) (shareable_cards kind table)
        (All-mono _ (IsKept kind) (shareable_cards kind table) (λ c. right (not (is_empty c.1)) _)
          (keep_if-Holds (λ c. not (is_empty c.1) && can_share c.1 kind) table)))

chosen_displaced-IsTaken :
    (kind : WorkKind) (n : ℕ) (table : List Card)
    → All (IsTaken kind) (chosen_displaced kind n table)
unfolding chosen_displaced
chosen_displaced-IsTaken kind n table =
    All-take (IsTaken kind) (n - length (chosen_kept kind n table)) (displaceable_cards kind table)
      (All-mono _ (IsTaken kind) (displaceable_cards kind table)
        (λ c h. can_displace-IsTaken kind c.1 (right (not (is_empty c.1)) _ h))
        (keep_if-Holds (λ c. not (is_empty c.1) && can_displace c.1 kind) table))

length-chosen_kept :
    (kind : WorkKind) (n : ℕ) (table : List Card) → length (chosen_kept kind n table) ≤ n
unfolding chosen_kept
length-chosen_kept kind n table = omega (
  arith,
  length-append (take n (free_cards table))
      (take (n - length (take n (free_cards table))) (shareable_cards kind table)),
  length-take n (free_cards table),
  length-take (n - length (take n (free_cards table))) (shareable_cards kind table),
)

length-chosen :
    (kind : WorkKind) (n : ℕ) (table : List Card)
    → length (chosen_kept kind n table ++ chosen_displaced kind n table) ≤ n
unfolding chosen_displaced
length-chosen kind n table = omega (
  arith,
  length-append (chosen_kept kind n table)
      (take (n - length (chosen_kept kind n table)) (displaceable_cards kind table)),
  length-chosen_kept kind n table,
  length-take (n - length (chosen_kept kind n table)) (displaceable_cards kind table),
)

length-map : {A B : Type 0} → (f : A → B) (xs : List A) → length (map f xs) ≡ length xs
length-map f [] = refl
length-map f (x ∷ xs) = ap suc (length-map f xs)

-- The key of a placement: the jobs on the cards that are taken, each once for each of these cards,
-- the rig's reliability and uptime, and the free cards less the chosen ones.
pub record IsKeyed (rig : Rig) (days : ℕ) (table kept taken : List Card) (r : Rank) : Type 0 where
  pub displaced : r.displaced ≡ length (job_ids taken)
  pub reliability : r.reliability ≡ rig.reliability
  pub uptime : r.uptime ≡ days
  pub free : r.free ≡ sub_ℕ (length (free_cards table)) (length (kept ++ taken))

-- What a turn of the loop finds for a rig.
abbrev pub Assesses : WorkKind → ℕ → Rig → ℕ → List Card → Assessment → Type 0
Assesses kind needed rig uptime table (rejected id why) = id ≡ rig.id
Assesses kind needed rig uptime table (candidate r p) =
    (f : IsFit kind needed rig table p) × IsKeyed rig uptime table f.kept f.taken r

pub fit-Assesses :
    (kind : WorkKind) (needed : ℕ) (whole : Bool) (rig : Rig) (uptime : ℕ) (table : List Card)
    → Distinct (uuids_of table)
    → Assesses kind needed rig uptime table (fit kind needed whole rig uptime table)
unfolding fit
fit-Assesses kind needed whole rig uptime table d =
    elim (Bool-cases (whole && not (eqb (length table) needed))) [
      | inl e ↦ rw e refl
      | inr e ↦
          elim (Bool-cases (
            ltb (length (chosen_kept kind needed table ++ chosen_displaced kind needed table))
              needed)) [
                | inl f ↦ rw (e, f) refl
                | inr f ↦
                    rw (e, f)
                      (
                        record {
                          kept = chosen_kept kind needed table;
                          taken = chosen_displaced kind needed table;
                          on_rig = refl;
                          enough =
                              length-map (λ c. c.0)
                                (chosen_kept kind needed table
                                  ++ chosen_displaced kind needed table)
                              ∙ (let l = length-chosen kind needed table in ground arith);
                          once =
                              chosen-Distinct kind needed table d
                                (chosen_kept-IsKept kind needed table);
                          cards = refl;
                          in_table =
                              All-append (OfTable table) (chosen_kept kind needed table) _
                                (chosen_kept-In kind needed table)
                                (chosen_displaced-In kind needed table);
                          kept_shared = chosen_kept-IsKept kind needed table;
                          taken_outranked = chosen_displaced-IsTaken kind needed table;
                          displaced = refl;
                        },
                        record { displaced = refl; reliability = refl; uptime = refl; free = refl },
                      )
              ]
    ]
