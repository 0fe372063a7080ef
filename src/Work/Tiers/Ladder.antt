-- ===== src/Work/Tiers/Ladder.antt =====
-- Which sets of kinds a rig can be eligible for.
use microtensor_compute.Common.{
  ◌*◌, ◌≡◌, refl, ◌∙◌, ◌&&◌, not, Bool, true, false, List, [], ◌∷◌, ◌++◌, Option, none, some, arith,
  if◌then◌else◌, ltb, is_empty, keep_if, map,
}
use microtensor_compute.Work.Tiers.{
  Tier, entry, standard, WorkKind, rental, inference, shaping, mining, Profile, Reason, append_if,
  minimums, reaches, work_reasons, kind_reasons, eligibility, professional, flagship,
  eligible_kinds, total_vram_gb, declined, kind_eqb, priority,
}

-- What a kind of work asks of a rig, as one test.
abbrev pub meets : Profile → WorkKind → Bool
meets p kind =
    let need = minimums kind in
    not (not (reaches p.tier need.tier))
    && not (ltb p.vram_gb (need.vram_gb * 1000))
    && not (ltb (p.ram_gb * 10) (need.ram_ratio * total_vram_gb p))
    && not (ltb p.disk_gb (need.disk_gb * 1000))
    && not (ltb p.cpu_cores need.cpu_cores)
    && not (need.isolation && not p.isolation_ok)
    && not (need.quotas && not p.quotas_ok)
    && not (need.public_ipv4 && not p.public_ipv4)
    && not (need.port_range && not p.port_range_ok)
    && not (ltb 0 need.bandwidth_mbps && ltb p.bandwidth_mbps (need.bandwidth_mbps * 1000))

is_empty-append : (xs ys : List Reason) → is_empty (xs ++ ys) ≡ is_empty xs && is_empty ys
is_empty-append [] ys = refl
is_empty-append (x ∷ xs) ys = refl

no_reason :
    (a b c d e f g h i j : Bool) (r0 r1 r2 r3 r4 r5 r6 r7 r8 r9 : Reason)
    → is_empty (
        append_if a r0
        ++ append_if b r1
        ++ append_if c r2
        ++ append_if d r3
        ++ append_if e r4
        ++ append_if f r5
        ++ append_if g r6
        ++ append_if h r7
        ++ append_if i r8
        ++ append_if j r9)
      ≡ not a && not b && not c && not d && not e && not f && not g && not h && not i && not j
unfolding append_if
no_reason true b c d e f g h i j r0 r1 r2 r3 r4 r5 r6 r7 r8 r9 = refl
no_reason false true c d e f g h i j r0 r1 r2 r3 r4 r5 r6 r7 r8 r9 = refl
no_reason false false true d e f g h i j r0 r1 r2 r3 r4 r5 r6 r7 r8 r9 = refl
no_reason false false false true e f g h i j r0 r1 r2 r3 r4 r5 r6 r7 r8 r9 = refl
no_reason false false false false true f g h i j r0 r1 r2 r3 r4 r5 r6 r7 r8 r9 = refl
no_reason false false false false false true g h i j r0 r1 r2 r3 r4 r5 r6 r7 r8 r9 = refl
no_reason false false false false false false true h i j r0 r1 r2 r3 r4 r5 r6 r7 r8 r9 = refl
no_reason false false false false false false false true i j r0 r1 r2 r3 r4 r5 r6 r7 r8 r9 = refl
no_reason false false false false false false false false true j r0 r1 r2 r3 r4 r5 r6 r7 r8 r9 =
    refl
no_reason false false false false false false false false false true r0 r1 r2 r3 r4 r5 r6 r7 r8 r9 =
    refl
no_reason false false false false false false false false false false r0 r1 r2 r3 r4 r5 r6 r7 r8
      r9 =
    refl

work_reasons-meets : (p : Profile) (kind : WorkKind) → is_empty (work_reasons p kind) ≡ meets p kind
unfolding work_reasons
work_reasons-meets p kind = no_reason _ _ _ _ _ _ _ _ _ _ _ _ _ _ _ _ _ _ _ _

is_empty-append_last : (b : Bool) (r : Reason) → is_empty (append_if b r) ≡ not b
unfolding append_if
is_empty-append_last true r = refl
is_empty-append_last false r = refl

-- A rig that is eligible for a kind meets each of its minimums, and the other way round; the owner
-- can decline rental, and nothing else.
pub kind_reasons-meets :
    (p : Profile) (opted_out : Bool) (kind : WorkKind)
    → is_empty (kind_reasons p opted_out kind)
      ≡ meets p kind && not (kind_eqb kind rental && opted_out)
unfolding kind_reasons
kind_reasons-meets p opted_out kind =
    rw
      (
        is_empty-append (work_reasons p kind)
            (append_if (kind_eqb kind rental && opted_out) declined),
        work_reasons-meets p kind,
        is_empty-append_last (kind_eqb kind rental && opted_out) declined,
      )
      refl

reaches-entry : (t : Option Tier) → reaches t standard ≡ true → reaches t entry ≡ true
reaches-entry none h = cc
reaches-entry (some entry) h = refl
reaches-entry (some standard) h = refl
reaches-entry (some professional) h = refl
reaches-entry (some flagship) h = refl

-- The kinds stand on a ladder: what is eligible for rental is eligible for shaping, and what is
-- eligible for shaping is eligible for inference.
meets-rental-shaping : (p : Profile) → meets p rental ≡ true → meets p shaping ≡ true
meets-rental-shaping p h = ground arith

meets-shaping-inference : (p : Profile) → meets p shaping ≡ true → meets p inference ≡ true
meets-shaping-inference p h = ground (arith, reaches-entry p.tier)

abbrev pub ladder : Bool → Bool → Bool → List WorkKind
ladder rents shapes infers =
    if rents
    then priority
    else if shapes
    then inference ∷ shaping ∷ mining ∷ []
    else if infers
    then inference ∷ mining ∷ []
    else []

abbrev picks : Bool → Bool → Bool → Bool → List WorkKind
picks a b c d =
    (if a then rental ∷ [] else [])
    ++ (if b then inference ∷ [] else [])
    ++ (if c then shaping ∷ [] else [])
    ++ (if d then mining ∷ [] else [])

kept_kinds :
    (f : WorkKind → List Reason)
    → map {A = WorkKind × List Reason}
        (λ e. e.0)
        (keep_if (λ e. is_empty e.1) (map (λ kind. (kind, f kind)) priority))
      ≡ picks
          (is_empty (f rental))
          (is_empty (f inference))
          (is_empty (f shaping))
          (is_empty (f mining))
unfolding keep_if
kept_kinds f = ground arith

rungs :
    (a b c d r s i o : Bool)
    → a ≡ r && not o
    → b ≡ i && true
    → c ≡ s && true
    → d ≡ i && true
    → (r ≡ true → s ≡ true)
    → (s ≡ true → i ≡ true)
    → picks a b c d ≡ ladder (r && not o) s i
rungs a b c d r s i o ea eb ec ed rs si = ground arith

-- The kinds that a rig is eligible for are a ladder: none without the minimums of inference, which
-- are those of mining; inference and mining with them; shaping too with its minimums; and all four
-- with those of rental, unless the owner has declined it.
pub eligible_kinds-ladder :
    (p : Profile) (opted_out : Bool)
    → eligible_kinds p opted_out
      ≡ ladder (meets p rental && not opted_out) (meets p shaping) (meets p inference)
unfolding eligible_kinds eligibility
eligible_kinds-ladder p opted_out =
    kept_kinds (kind_reasons p opted_out)
    ∙ rungs _ _ _ _ (meets p rental) (meets p shaping) (meets p inference) opted_out
        (kind_reasons-meets p opted_out rental) (kind_reasons-meets p opted_out inference)
        (kind_reasons-meets p opted_out shaping) (kind_reasons-meets p opted_out mining)
        (meets-rental-shaping p) (meets-shaping-inference p)
