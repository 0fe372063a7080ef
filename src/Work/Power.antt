-- ===== src/Work/Power.antt =====
-- validator/work/power.py: power limits that a job asks for, and the limits that were there before.
-- nvidia-smi on the rig is a parameter: what it reports in a world, and the world after it sets a
-- limit. Watts are natural numbers. Loading, saving and the moments of the records are not
-- modelled.
use microtensor_compute.Common.{
  ℕ, ◌+◌, ◌-◌, ◌≡◌, refl, ◌∙◌, inl, inr, ◌⊎◌, min, max, ◌&&◌, not, Bool, true, false, List, [], ◌∷◌,
  ◌++◌, Option, none, some, Dict, arith, if◌then◌else◌, leb, eqb, is_empty, contains, keep_if,
  lookup, insert, erase, from_option, has_key, lookup-insert, lookup-erase, Bool-cases,
  Option-cases,
}
use microtensor_compute.Common.Text.{Text, text_eq, text_eq_iff, text_instance}

pub record PowerState : Type 0 where
  pub limit_w : ℕ
  pub default_w : ℕ
  pub min_w : ℕ
  pub max_w : ℕ

pub record PowerRecords : Type 0 where
  pub gpus : Dict Text ℕ
  pub jobs : Dict Text (List Text)

unfoldable pub remember_original : Text → ℕ → Text → PowerRecords → PowerRecords
unfolding lookup insert contains text_eq
remember_original uuid original_w job_id r =
    let cards = from_option [] (lookup job_id r.jobs) in
    record {
      gpus = if has_key uuid r.gpus then r.gpus else insert uuid original_w r.gpus;
      jobs = insert job_id (if contains uuid cards then cards else cards ++ uuid ∷ []) r.jobs;
    }

unfoldable pub original : Text → PowerRecords → Option ℕ
unfolding lookup text_eq
original uuid r = lookup uuid r.gpus

unfoldable pub forget_card : Text → Text → PowerRecords → PowerRecords
unfolding lookup insert erase keep_if text_eq
forget_card uuid job_id r =
    let remaining = keep_if (λ u. not (text_eq u uuid)) (from_option [] (lookup job_id r.jobs)) in
    record {
      gpus = erase uuid r.gpus;
      jobs = if is_empty remaining then erase job_id r.jobs else insert job_id remaining r.jobs;
    }

-- nvidia-smi: what it reports of a card, and what it does when it is told to set a limit.
pub record Smi (World : Type 0) : Type 0 where
  pub read_state : Text → World → Option PowerState
  pub write_limit : Text → ℕ → World → Bool × World

abbrev pub reads_back : ℕ → Option PowerState → Bool
reads_back watts none = false
reads_back watts (some state) = leb ((state.limit_w - watts) + (watts - state.limit_w)) 1

module _ {World : Type 0} (smi : Smi World) where
  -- Whether the limit was set and reads back.
  unfoldable pub set_limit : Text → ℕ → World → Bool × World
  set_limit uuid watts world =
      let (ok, after) = smi.write_limit uuid watts world in
      (ok && reads_back watts (smi.read_state uuid after), after)

  -- The loop of `restore_job` over the cards of the job.
  unfoldable pub restore_cards : Text → List Text → PowerRecords × World → PowerRecords × World
  unfolding forget_card set_limit original
  restore_cards job_id [] s = s
  restore_cards job_id (uuid ∷ uuids) (r, world) = elim (original uuid r) [
    | none ↦ restore_cards job_id uuids (forget_card uuid job_id r, world)
    | some watts ↦
        let (ok, after) = set_limit uuid watts world in
        restore_cards job_id uuids ((if ok then forget_card uuid job_id r else r), after)
  ]

  unfoldable pub restore_job : Text → PowerRecords × World → PowerRecords × World
  unfolding restore_cards lookup text_eq
  restore_job job_id s = restore_cards job_id (from_option [] (lookup job_id s.0.jobs)) s

  -- `records.original(uuid) or state.limit_w`
  abbrev pub or_limit : Option ℕ → ℕ → ℕ
  or_limit none limit = limit
  or_limit (some watts) limit = if eqb watts 0 then limit else watts

  unfoldable pub apply_caps :
      Text → List (Text × ℕ) → PowerRecords × World → Bool × (PowerRecords × World)
  unfolding restore_job remember_original set_limit original
  apply_caps job_id [] s = (true, s)
  apply_caps job_id ((uuid, requested) ∷ caps) (r, world) = elim (smi.read_state uuid world) [
    | none ↦ (false, restore_job job_id (r, world))
    | some state ↦
        let target = min (max requested state.min_w) state.max_w in
        let known = remember_original uuid (or_limit (original uuid r) state.limit_w) job_id r in
        let (ok, after) = set_limit uuid target world in
        let rest = apply_caps job_id caps (known, after) in
        let undone : Bool × (PowerRecords × World) = (false, restore_job job_id (known, after)) in
        if ok then rest else undone
  ]

  -- A record of a card is as it was, or it is gone.
  abbrev pub IsKept : PowerRecords → PowerRecords → Text → Type 0
  IsKept before after u =
      (lookup u after.gpus ≡ lookup u before.gpus) ⊎ (lookup u after.gpus ≡ none)

  IsKept-trans : (a b c : PowerRecords) (u : Text) → IsKept a b u → IsKept b c u → IsKept a c u
  IsKept-trans a b c u (inl e) (inl f) = inl (f ∙ e)
  IsKept-trans a b c u (inr e) (inl f) = inr (f ∙ e)
  IsKept-trans a b c u h (inr f) = inr f

  forget_card-IsKept :
      (uuid job_id u : Text) (r : PowerRecords) → IsKept r (forget_card uuid job_id r) u
  unfolding forget_card
  forget_card-IsKept uuid job_id u r = elim (Bool-cases (text_eq uuid u)) [
    | inl e ↦ inr (lookup-erase uuid u r.gpus ∙ rw e refl)
    | inr e ↦ inl (lookup-erase uuid u r.gpus ∙ rw e refl)
  ]

  forget_if-IsKept :
      (ok : Bool) (uuid job_id u : Text) (r : PowerRecords)
      → IsKept r (if ok then forget_card uuid job_id r else r) u
  forget_if-IsKept true uuid job_id u r = forget_card-IsKept uuid job_id u r
  forget_if-IsKept false uuid job_id u r = inl refl

  restore_cards-IsKept :
      (job_id u : Text) (uuids : List Text) (r : PowerRecords) (world : World)
      → IsKept r (restore_cards job_id uuids (r, world)).0 u
  unfolding restore_cards
  restore_cards-IsKept job_id u [] r world = inl refl
  restore_cards-IsKept job_id u (uuid ∷ uuids) r world = elim (Option-cases (original uuid r)) [
    | inl e ↦
        rw (e, restore_cards)
          (IsKept-trans r (forget_card uuid job_id r)
            (restore_cards job_id uuids (forget_card uuid job_id r, world)).0 u
            (forget_card-IsKept uuid job_id u r)
            (restore_cards-IsKept job_id u uuids (forget_card uuid job_id r) world))
    | inr (watts, e) ↦
        let s = set_limit uuid watts world in
        let next = if s.0 then forget_card uuid job_id r else r in
        rw (e, restore_cards)
          (IsKept-trans r next (restore_cards job_id uuids (next, s.1)).0 u
            (forget_if-IsKept s.0 uuid job_id u r) (restore_cards-IsKept job_id u uuids next s.1))
  ]

  remember-lookup :
      (uuid job_id u : Text) (watts w : ℕ) (r : PowerRecords)
      → lookup u r.gpus ≡ some w
      → lookup u (remember_original uuid watts job_id r).gpus ≡ some w
  unfolding remember_original
  remember-lookup uuid job_id u watts w r h =
      ground (arith, lookup-insert uuid u watts r.gpus, text_eq_iff uuid u)

  restore_job-lookup :
      (job_id u : Text) (w : ℕ) (r : PowerRecords) (world : World)
      → lookup u r.gpus ≡ some w
      → (lookup u (restore_job job_id (r, world)).0.gpus ≡ some w)
        ⊎ (lookup u (restore_job job_id (r, world)).0.gpus ≡ none)
  unfolding restore_job
  restore_job-lookup job_id u w r world h =
      elim (restore_cards-IsKept job_id u (from_option [] (lookup job_id r.jobs)) r world) [
        | inl e ↦ inl (e ∙ h)
        | inr e ↦ inr e
      ]

  -- The limit that a card had before the first job capped it is never overwritten: whatever caps a
  -- job asks for and whatever the rig answers, a recorded original is what it was, or it is
  -- forgotten with its card.
  pub original-apply_caps :
      (job_id u : Text) (w : ℕ) (caps : List (Text × ℕ)) (r : PowerRecords) (world : World)
      → lookup u r.gpus ≡ some w
      → (lookup u (apply_caps job_id caps (r, world)).1.0.gpus ≡ some w)
        ⊎ (lookup u (apply_caps job_id caps (r, world)).1.0.gpus ≡ none)
  unfolding apply_caps
  original-apply_caps job_id u w [] r world h = inl h
  original-apply_caps job_id u w ((uuid, requested) ∷ caps) r world h =
      elim (Option-cases (smi.read_state uuid world)) [
        | inl e ↦ rw (e, apply_caps) (restore_job-lookup job_id u w r world h)
        | inr (state, e) ↦
            let target = min (max requested state.min_w) state.max_w in
            let known =
              remember_original uuid (or_limit (original uuid r) state.limit_w) job_id r in
            let s = set_limit uuid target world in
            let h' : lookup u known.gpus ≡ some w =
              remember-lookup uuid job_id u (or_limit (original uuid r) state.limit_w) w r h in
            elim (Bool-cases s.0) [
              | inl ok ↦ rw (e, ok, apply_caps) (original-apply_caps job_id u w caps known s.1 h')
              | inr bad ↦ rw (e, bad, apply_caps) (restore_job-lookup job_id u w known s.1 h')
            ]
      ]
