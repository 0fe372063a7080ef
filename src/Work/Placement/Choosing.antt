-- ===== src/Work/Placement/Choosing.antt =====
-- What a placement promises: the rig, its cards and the jobs that go.
use microtensor_compute.Common.{
  ℕ, length, max, ◌≡◌, refl, sym, ap, subst, inl, inr, Bool, List, [], ◌∷◌, none, some, arith, map,
  Option-cases, In, take,
}
use microtensor_compute.Common.Text.{Text, text_instance}
use microtensor_compute.Common.Sort.{sorted_by, length-sorted_by, In-sorted_by}
use microtensor_compute.Work.Tiers.{WorkKind}
use microtensor_compute.Work.Rigs.{JobRecord, Rig, kind_of, ineligible_reason, occupancy}
use microtensor_compute.Work.Placement.{
  Placed, Placement, placed, unknown_kind, no_rig, Rank, rank_leb, Assessment, rejected, candidate,
  assess, candidates, reasons, best, choose, fit,
}
use microtensor_compute.Work.Placement.Once.{occupancy-Distinct}
use microtensor_compute.Work.Placement.Cards.{IsFit, Assesses, fit-Assesses}

pub In-map :
    {A B : Type 0}
    → (f : A → B) (b : B) (xs : List A) → In b (map f xs)
    → (a : A) × In a xs × (b ≡ f a)
In-map f b [] i = absurd i
In-map f b (x ∷ xs) (inl e) = (x, inl refl, e)
In-map f b (x ∷ xs) (inr i) = let (a, j, e) = In-map f b xs i in (a, inr j, e)

pub In-candidates :
    (r : Rank) (p : Placed) (found : List Assessment)
    → In (r, p) (candidates found)
    → In (candidate r p) found
unfolding candidates
In-candidates r p [] i = absurd i
In-candidates r p (rejected id why ∷ found) i = inr (In-candidates r p found i)
In-candidates r p (candidate s q ∷ found) (inl e) = inl (ap (λ c. candidate c.0 c.1) e)
In-candidates r p (candidate s q ∷ found) (inr i) = inr (In-candidates r p found i)

none_sorted :
    (le : Rank × Placed → Rank × Placed → Bool) (cs : List (Rank × Placed))
    → [] ≡ sorted_by le cs
    → cs ≡ []
none_sorted le [] h = refl
none_sorted le (c ∷ cs) h =
    let n = length-sorted_by le (c ∷ cs) in
    let m : 0 ≡ length (sorted_by le (c ∷ cs)) = ap length h in ground arith

-- A rig of the roster that the placement is on, and how its cards serve.
pub record IsPlaced (kind : WorkKind) (needed : ℕ) (roster : List Rig)
    (jobs_of : Text → List JobRecord) (p : Placed) : Type 0 where
  pub rig : Rig
  pub listed : In rig roster
  pub eligible : ineligible_reason rig kind ≡ none
  pub fits : IsFit kind needed rig (occupancy rig (jobs_of rig.id)) p

pub assess-IsPlaced :
    (kind : WorkKind) (needed : ℕ) (whole : Bool) (uptime : Text → ℕ)
    (jobs_of : Text → List JobRecord) (rig : Rig) (r : Rank) (p : Placed)
    → candidate r p ≡ assess kind needed whole uptime jobs_of rig
    → (ineligible_reason rig kind ≡ none)
      × Assesses kind needed rig (uptime rig.id) (occupancy rig (jobs_of rig.id)) (candidate r p)
unfolding assess
assess-IsPlaced kind needed whole uptime jobs_of rig r p h =
    elim (Option-cases (ineligible_reason rig kind)) [
      | inr (why, e) ↦ let h' = rw (e, assess) at h in cc
      | inl e ↦
          let table = occupancy rig (jobs_of rig.id) in
          let h' : candidate r p ≡ fit kind needed whole rig (uptime rig.id) table =
            rw (e, assess) at h in
          (
            e,
            subst (Assesses kind needed rig (uptime rig.id) table) (sym h') (
                fit-Assesses kind needed whole rig (uptime rig.id) table
                  (occupancy-Distinct rig (jobs_of rig.id))),
          )
    ]

module _ (kind_text : Text) (gpu_count : ℕ) (roster : List Rig) (uptime : Text → ℕ)
    (jobs_of : Text → List JobRecord) (whole_node : Bool) where
  abbrev pub assessed : WorkKind → List Assessment
  assessed kind = map (assess kind (max 1 gpu_count) whole_node uptime jobs_of) roster

  -- What `choose` answers.
  abbrev pub Chooses : Placement → Type 0
  Chooses (unknown_kind text) = kind_of kind_text ≡ none
  Chooses (no_rig why) =
      (kind : WorkKind) × (kind_of kind_text ≡ some kind)
      × (candidates (assessed kind) ≡ [])
      × (why ≡ take 8 (reasons (assessed kind)))
  Chooses (placed p) =
      (kind : WorkKind) × (kind_of kind_text ≡ some kind)
      × IsPlaced kind (max 1 gpu_count) roster jobs_of p

  abbrev by_rank : Rank × Placed → Rank × Placed → Bool
  by_rank a b = rank_leb a.0 b.0

  best-Chooses :
      (kind : WorkKind) (cs : List (Rank × Placed))
      → kind_of kind_text ≡ some kind
      → cs ≡ sorted_by by_rank (candidates (assessed kind))
      → Chooses (best (reasons (assessed kind)) cs)
  best-Chooses kind [] e h = (kind, e, none_sorted by_rank (candidates (assessed kind)) h, refl)
  best-Chooses kind ((r, p) ∷ cs) e h =
      let i : In (r, p) (sorted_by by_rank (candidates (assessed kind))) =
        subst (In (r, p)) h (inl refl) in
      let j = In-sorted_by by_rank (r, p) (candidates (assessed kind)) i in
      let (rig, listed, same) =
        In-map (assess kind (max 1 gpu_count) whole_node uptime jobs_of) (candidate r p) roster
          (In-candidates r p (assessed kind) j) in
      let (eligible, fits) =
        assess-IsPlaced kind (max 1 gpu_count) whole_node uptime jobs_of rig r p same in
      (kind, e, record { rig = rig; listed = listed; eligible = eligible; fits = fits.0 })

  -- A placement is on a rig of the roster that is eligible for the kind of work, and on exactly as
  -- many different cards of it as were asked for, at least one. Each card keeps its jobs, where it
  -- has none or the new job may share it, or it loses them, and then each of them is of a known
  -- kind of lower priority that is neither rental nor inference; the jobs that are named as
  -- displaced are these. There is no placement only if the kind is not known or every rig was
  -- rejected, and then the answer names the first eight rejections.
  pub choose-Chooses : Chooses (choose kind_text gpu_count roster uptime jobs_of whole_node)
  unfolding choose
  choose-Chooses = elim (Option-cases (kind_of kind_text)) [
    | inl e ↦ rw (e, choose) e
    | inr (kind, e) ↦
        rw (e, choose) (best-Chooses kind (sorted_by by_rank (candidates (assessed kind))) e refl)
  ]
