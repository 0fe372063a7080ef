-- ===== src/Verify/Exclusivity/Foreign.antt =====
-- Which processes make the check fail, and which jobs are reported dead.
use microtensor_compute.Common.{
  ℕ, ◌+◌, ◌≡◌, refl, ap, ◌∙◌, ◌&&◌, Bool, false, List, [], ◌∷◌, ◌++◌, Option, arith, is_empty,
  all_of, length, Bool-cases, inl, inr, length-append, nat_eq,
}
use microtensor_compute.Common.Text.{Text, text_instance}
use microtensor_compute.Verify.Failures.{passed}
use microtensor_compute.Verify.Exclusivity.{
  OwnContainer, Process, Card, PlacedJob, Tally, no_tally, is_authorised, tally_one, tally_card,
  tally_cards, tally, job_pids, job_containers, our_names, verdict_of, check,
}

-- Every process on every card is a placed job's, or in a container of ours or of a job.
abbrev pub every_authorised : List Card → List PlacedJob → List OwnContainer → Bool
every_authorised gpus jobs ours =
    all_of
      (λ card.
        all_of (is_authorised (job_pids jobs) (job_containers jobs ++ our_names ours))
          card.processes)
      gpus

-- How many processes the cards have.
unfoldable pub process_count : List Card → ℕ
process_count [] = 0
process_count (card ∷ cards) = length card.processes + process_count cards

is_empty-snoc : (xs : List (Text × Process)) (x : Text × Process) → is_empty (xs ++ x ∷ []) ≡ false
is_empty-snoc [] x = refl
is_empty-snoc (y ∷ ys) x = refl

and_assoc : (a b c : Bool) → ((a && b) && c) ≡ (a && (b && c))
and_assoc a b c = ground arith

module _ (pids : List ℕ) (known : List Text) where
  foreign-tally_one :
      (uuid : Text) (p : Process) (t : Tally)
      → is_empty (tally_one pids known uuid p t).foreign
        ≡ (is_empty t.foreign && is_authorised pids known p)
  unfolding tally_one
  foreign-tally_one uuid p t = elim (Bool-cases (is_authorised pids known p)) [
    | inl e ↦ rw e (ground arith)
    | inr e ↦ rw e (is_empty-snoc t.foreign (uuid, p) ∙ ground arith)
  ]

  foreign-tally_card :
      (uuid : Text) (ps : List Process) (t : Tally)
      → is_empty (tally_card pids known uuid ps t).foreign
        ≡ (is_empty t.foreign && all_of (is_authorised pids known) ps)
  unfolding tally_card all_of
  foreign-tally_card uuid [] t = ground arith
  foreign-tally_card uuid (p ∷ ps) t =
      foreign-tally_card uuid ps (tally_one pids known uuid p t)
      ∙ (ap (λ b. b && all_of (is_authorised pids known) ps) (foreign-tally_one uuid p t)
          ∙ and_assoc (is_empty t.foreign) (is_authorised pids known p)
              (all_of (is_authorised pids known) ps))

  foreign-tally_cards :
      (cards : List Card) (t : Tally)
      → is_empty (tally_cards pids known cards t).foreign ≡ (
          is_empty t.foreign
          && all_of (λ card. all_of (is_authorised pids known) card.processes) cards)
  unfolding tally_cards all_of
  foreign-tally_cards [] t = ground arith
  foreign-tally_cards (card ∷ cards) t =
      foreign-tally_cards cards (tally_card pids known card.uuid card.processes t)
      ∙ (ap (λ b. b && all_of (λ c. all_of (is_authorised pids known) c.processes) cards)
            (foreign-tally_card card.uuid card.processes t)
          ∙ and_assoc (is_empty t.foreign) (all_of (is_authorised pids known) card.processes)
              (all_of (λ c. all_of (is_authorised pids known) c.processes) cards))

  total : Tally → ℕ
  total t = t.authorised + length t.foreign

  total-tally_one :
      (uuid : Text) (p : Process) (t : Tally) → total (tally_one pids known uuid p t) ≡ total t + 1
  unfolding tally_one total
  total-tally_one uuid p t = elim (Bool-cases (is_authorised pids known p)) [
    | inl e ↦ rw e (omega arith)
    | inr e ↦ rw e (omega (arith, length-append t.foreign ((uuid, p) ∷ [])))
  ]

  total-tally_card :
      (uuid : Text) (ps : List Process) (t : Tally)
      → total (tally_card pids known uuid ps t) ≡ total t + length ps
  unfolding tally_card
  total-tally_card uuid [] t = omega arith
  total-tally_card uuid (p ∷ ps) t =
      omega
        (arith, total-tally_card uuid ps (tally_one pids known uuid p t), total-tally_one uuid p t)

  total-tally_cards :
      (cards : List Card) (t : Tally)
      → total (tally_cards pids known cards t) ≡ total t + process_count cards
  unfolding tally_cards process_count
  total-tally_cards [] t = omega arith
  total-tally_cards (card ∷ cards) t = omega (
    arith,
    total-tally_cards cards (tally_card pids known card.uuid card.processes t),
    total-tally_card card.uuid card.processes t,
  )

passed-verdict_of :
    (foreign : List (Text × Process)) → passed (verdict_of foreign) ≡ is_empty foreign
passed-verdict_of [] = refl
passed-verdict_of ((uuid, p) ∷ rest) = refl

-- The check passes exactly where every process on every card is authorised, and it counts each
-- process once, as authorised or as foreign.
pub check-tally :
    (gpus : List Card) (jobs : List PlacedJob) (ours : List OwnContainer) (alive : Option (List ℕ))
    → (passed (check gpus jobs ours alive).0 ≡ every_authorised gpus jobs ours)
      × ((tally gpus jobs ours).authorised + length (tally gpus jobs ours).foreign
          ≡ process_count gpus)
unfolding check tally
check-tally gpus jobs ours alive =
    let pids = job_pids jobs in
    let known = job_containers jobs ++ our_names ours in
    (
      passed-verdict_of (tally_cards pids known gpus no_tally).foreign
          ∙ foreign-tally_cards pids known gpus no_tally,
      (unfold total in omega (arith, total-tally_cards pids known gpus no_tally)),
    )
