-- ===== src/Monitor/Express/Laws.antt =====
-- How the probes of a rig are counted, and when it is due early.
use microtensor_compute.Common.{
  ℕ, ◌+◌, ◌≡◌, refl, inl, inr, ◌&&◌, ◌||◌, not, true, List, [], ◌∷◌, ◌++◌, Option, none, some,
  arith, eqb, contains, lookup, from_option, ◌∙◌, ap, Bool-cases, Option-cases, is_some,
  lookup-insert_self, lookup-erase,
}
use microtensor_compute.Common.Text.{Text, text_instance, text_eq_refl}
use microtensor_compute.Monitor.Express.{
  Card, Rig, ExpressLane, record_signal, probe_failed, probe_answered, probe, probe_all,
  failed_ticks, utilisation_signal, add_to,
}

-- The failures at the end of a list of probes, on top of those before it if all fail.
unfoldable pub streak : ℕ → List (Option (List Card) × ℕ) → ℕ
streak n [] = n
streak n ((none, now) ∷ rest) = streak (n + 1) rest
streak n ((some gpus, now) ∷ rest) = streak 0 rest

failed_ticks-probe_failed :
    (rig : Rig) (now : ℕ) (lane : ExpressLane)
    → failed_ticks rig.id (probe_failed rig now lane) ≡ failed_ticks rig.id lane + 1
unfolding failed_ticks probe_failed record_signal
failed_ticks-probe_failed rig now lane =
    elim (Bool-cases (eqb (from_option 0 (lookup rig.id lane.unreachable) + 1) 3)) [
      | inl e ↦
          rw
            (
              e,
              lookup-insert_self rig.id (from_option 0 (lookup rig.id lane.unreachable) + 1)
                  lane.unreachable,
            )
            refl
      | inr e ↦
          rw
            (
              e,
              lookup-insert_self rig.id (from_option 0 (lookup rig.id lane.unreachable) + 1)
                  lane.unreachable,
            )
            refl
    ]

failed_ticks-probe_answered :
    (rig : Rig) (gpus : List Card) (now : ℕ) (lane : ExpressLane)
    → failed_ticks rig.id (probe_answered rig gpus now lane) ≡ 0
unfolding failed_ticks probe_answered record_signal
failed_ticks-probe_answered rig gpus now lane = elim (Option-cases (utilisation_signal rig gpus)) [
  | inl e ↦
      rw (e, probe_answered, lookup-erase rig.id rig.id lane.unreachable, text_eq_refl rig.id) refl
  | inr (kind, e) ↦
      rw (e, probe_answered, lookup-erase rig.id rig.id lane.unreachable, text_eq_refl rig.id) refl
]

-- The lane counts the failures in a row: after any probes of a rig, the count is that of the
-- failures since its last answer, and of those before if it never answered.
pub failed_ticks-probe_all :
    (rig : Rig) (probes : List (Option (List Card) × ℕ)) (lane : ExpressLane)
    → failed_ticks rig.id (probe_all rig probes lane) ≡ streak (failed_ticks rig.id lane) probes
unfolding probe_all probe streak
failed_ticks-probe_all rig [] lane = refl
failed_ticks-probe_all rig ((none, now) ∷ rest) lane =
    failed_ticks-probe_all rig rest (probe_failed rig now lane)
    ∙ ap (λ n. streak n rest) (failed_ticks-probe_failed rig now lane)
failed_ticks-probe_all rig ((some gpus, now) ∷ rest) lane =
    failed_ticks-probe_all rig rest (probe_answered rig gpus now lane)
    ∙ ap (λ n. streak n rest) (failed_ticks-probe_answered rig gpus now lane)

contains-snoc : (x : Text) (xs : List Text) → contains x (xs ++ x ∷ []) ≡ true
unfolding contains
contains-snoc x [] = ground (arith, text_eq_refl x)
contains-snoc x (y ∷ ys) = ground (arith, contains-snoc x ys)

contains-add_to : (x : Text) (xs : List Text) → contains x (add_to x xs) ≡ true
contains-add_to x xs = elim (Bool-cases (contains x xs)) [
  | inl e ↦ rw (e, e) refl
  | inr e ↦ rw e (contains-snoc x xs)
]

-- A probe makes the rig due for an early deep check exactly where it is the third failure in a row,
-- and takes no rig off the set.
pub early_due-probe :
    (rig : Rig) (answer : Option (List Card)) (now : ℕ) (lane : ExpressLane)
    → contains rig.id (probe rig answer now lane).early_due ≡ (
        contains rig.id lane.early_due
        || (not (is_some answer) && eqb (failed_ticks rig.id lane + 1) 3))
unfolding probe probe_failed probe_answered record_signal failed_ticks
early_due-probe rig none now lane =
    elim (Bool-cases (eqb (from_option 0 (lookup rig.id lane.unreachable) + 1) 3)) [
      | inl e ↦ rw e (contains-add_to rig.id lane.early_due ∙ ground arith)
      | inr e ↦ rw e (ground arith)
    ]
early_due-probe rig (some gpus) now lane = elim (Option-cases (utilisation_signal rig gpus)) [
  | inl e ↦ rw (e, probe_answered) (ground arith)
  | inr (kind, e) ↦ rw (e, probe_answered) (ground arith)
]
