-- ===== src/Monitor/Wedge.antt =====
-- validator/recovery/gpu_wedge.py: cards that report work without a process. A query's answer is an
-- argument: it failed, or processes were there, or the rows of nvidia-smi; percents and MiB are
-- natural numbers. `cure` runs a command whose answer the code does not read.
use microtensor_compute.Common.{
  ℕ, ◌≡◌, refl, ap, inl, inr, ◌&&◌, not, Bool, true, false, List, [], ◌∷◌, Option, none, some,
  arith, if◌then◌else◌, leb, is_empty, contains, keep_if, map, Bool-cases, All, All-mono,
  All-keep_if, keep_if-Holds,
}
use microtensor_compute.Common.Text.{Text, codes, text_eq, text_instance, starts_with, text_eq_refl}

abbrev pub utilisation_min : ℕ
utilisation_min = 95

abbrev pub sweep_memory_max_mib : ℕ
sweep_memory_max_mib = 16

pub record Row : Type 0 where
  pub uuid : Text
  pub utilisation : ℕ
  pub memory : ℕ

pub data Sample : Type 0 where
  failed : Sample
  processes_present : Sample
  rows : List Row → Sample

pub data Skip : Type 0 where
  query_failed compute_processes : Skip

abbrev pub looks_wedged : ℕ → ℕ → Bool
looks_wedged utilisation memory = leb utilisation_min utilisation && leb memory sweep_memory_max_mib

abbrev pub is_wedged_row : Row → Bool
is_wedged_row row = starts_with (codes "GPU-") row.uuid && looks_wedged row.utilisation row.memory

unfoldable pub parse_query : List Row → List Text
unfolding keep_if starts_with
parse_query found = map (λ row. row.uuid) (keep_if is_wedged_row found)

unfoldable pub query_wedged : Sample → List Text × Option Skip
unfolding parse_query
query_wedged failed = ([], some query_failed)
query_wedged processes_present = ([], some compute_processes)
query_wedged (rows found) = (parse_query found, none)

-- The second answer is asked for after the first was neither skipped nor empty.
abbrev pub both_wedged : List Text → List Text × Option Skip → List Text × Option Skip
both_wedged first (second, some skipped) = ([], some skipped)
both_wedged first (second, none) = (keep_if (λ uuid. contains uuid second) first, none)

abbrev pub after_first : List Text × Option Skip → Sample → List Text × Option Skip
after_first (found, some skipped) second = ([], some skipped)
after_first (found, none) second =
    if is_empty found then ([], none) else both_wedged found (query_wedged second)

unfoldable pub wedged_gpus : Sample → Sample → List Text × Option Skip
unfolding query_wedged keep_if contains text_eq
wedged_gpus first second = after_first (query_wedged first) second

pub record SweepResult : Type 0 where
  pub wedged : List Text
  pub cured : List Text
  pub still_wedged : List Text
  pub skipped : Option Skip

abbrev pub swept : List Text → List Text → SweepResult
swept wedged remaining =
    let still = keep_if (λ uuid. contains uuid remaining) wedged in
    record {
      wedged = wedged;
      cured = keep_if (λ uuid. not (contains uuid still)) wedged;
      still_wedged = still;
      skipped = none;
    }

abbrev pub no_sweep : Option Skip → SweepResult
no_sweep skipped = record { wedged = []; cured = []; still_wedged = []; skipped = skipped }

abbrev pub sweep_found : List Text × Option Skip → Sample → SweepResult
sweep_found (found, some why) third = no_sweep (some why)
sweep_found (found, none) third =
    if is_empty found then no_sweep none else swept found (query_wedged third).0

unfoldable pub sweep : Sample → Sample → Sample → SweepResult
unfolding wedged_gpus query_wedged keep_if contains text_eq
sweep first second third = sweep_found (wedged_gpus first second) third

-- The uuids that a sample shows as wedged.
abbrev pub shown_wedged : Sample → Text → Bool
shown_wedged sample uuid = contains uuid (query_wedged sample).0

-- What holds of a sweep's result: each wedged card was shown by both of the first two samples, and
-- a card that is still wedged is one of them that the third shows too.
pub record IsSwept (first second third : Sample) (r : SweepResult) : Type 0 where
  pub shown_first : All (λ u. shown_wedged first u ≡ true) r.wedged
  pub shown_second : All (λ u. shown_wedged second u ≡ true) r.wedged
  pub still : r.still_wedged ≡ keep_if (shown_wedged third) r.wedged
  pub cured : r.cured ≡ keep_if (λ u. not (contains u r.still_wedged)) r.wedged

keep_if_every : (p : Text → Bool) (xs : List Text) → ((x : Text) → p x ≡ true) → keep_if p xs ≡ xs
unfolding keep_if
keep_if_every p [] h = refl
keep_if_every p (x ∷ xs) h = rw (h x) (ap (◌∷◌ x) (keep_if_every p xs h))

keep_if_never : (p : Text → Bool) (xs : List Text) → ((x : Text) → p x ≡ false) → keep_if p xs ≡ []
unfolding keep_if
keep_if_never p [] h = refl
keep_if_never p (x ∷ xs) h = rw (h x) (keep_if_never p xs h)

contains_self : (xs : List Text) → All (λ u. contains u xs ≡ true) xs
unfolding contains
contains_self [] = tt
contains_self (x ∷ xs) = (
  ground (arith, text_eq_refl x),
  All-mono (λ u. contains u xs ≡ true) (λ u. contains u (x ∷ xs) ≡ true) xs
      (λ u h. ground (arith, h)) (contains_self xs),
)

abbrev IsShown : Sample → List Text → Type 0
IsShown sample us = All (λ u. shown_wedged sample u ≡ true) us

both_wedged-IsShown :
    (found : List Text) (sample : List Text × Option Skip) (P : Text → Type 0)
    → All P found
    → All P (both_wedged found sample).0
      × All (λ u. contains u sample.0 ≡ true) (both_wedged found sample).0
both_wedged-IsShown found (second, some why) P a = (tt, tt)
both_wedged-IsShown found (second, none) P a =
    (All-keep_if P (λ u. contains u second) found a, keep_if-Holds (λ u. contains u second) found)

wedged_gpus-IsShown :
    (first second : Sample)
    → IsShown first (wedged_gpus first second).0 × IsShown second (wedged_gpus first second).0
unfolding wedged_gpus
wedged_gpus-IsShown first second = from_first (query_wedged first) refl
  where
    from_first :
        (q : List Text × Option Skip)
        → query_wedged first ≡ q
        → IsShown first (after_first q second).0 × IsShown second (after_first q second).0
    from_first (found, some why) e = (tt, tt)
    from_first (found, none) e = elim (Bool-cases (is_empty found)) [
      | inl h ↦ rw h (tt, tt)
      | inr h ↦ rw h (
          both_wedged-IsShown found (query_wedged second) (λ u. shown_wedged first u ≡ true)
            (rw (ap (λ q. q.0) e) (contains_self found)))
    ]

-- A card is wedged only where the first two samples both show it; it is still wedged where the
-- third shows it too, and every other wedged card is reported as cured.
pub sweep-IsSwept :
    (first second third : Sample) → IsSwept first second third (sweep first second third)
unfolding sweep
sweep-IsSwept first second third =
    found_IsSwept (wedged_gpus first second) (wedged_gpus-IsShown first second).0
      (wedged_gpus-IsShown first second).1
  where
    found_IsSwept :
        (w : List Text × Option Skip)
        → IsShown first w.0
        → IsShown second w.0
        → IsSwept first second third (sweep_found w third)
    found_IsSwept (found, some why) a b = record {
      shown_first = tt;
      shown_second = tt;
      still = unfold keep_if in refl;
      cured = unfold keep_if in refl;
    }
    found_IsSwept (found, none) a b = elim (Bool-cases (is_empty found)) [
      | inl h ↦ rw h (record {
        shown_first = tt;
        shown_second = tt;
        still = unfold keep_if in refl;
        cured = unfold keep_if in refl;
      })
      | inr h ↦ rw h (record { shown_first = a; shown_second = b; still = refl; cured = refl })
    ]
