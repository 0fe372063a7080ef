-- ===== src/Common/Keys.antt =====
-- The keys of a dictionary: an assignment keeps each of them once.
use mathlib.Core.Path.{◌≡◌}
use mathlib.Core.Logic.{◌≢◌, inl, inr}
use mathlib.Core.Bool.{false}
use mathlib.Core.List.{List, [], ◌∷◌, map}
use microtensor_compute.Common.Tests.{Bool-cases}
use microtensor_compute.Common.Lists.{All, Distinct}
use microtensor_compute.Common.Classes.{Eq, ◌==◌}
use microtensor_compute.Common.Dicts.{Dict, insert}

different : {K : Type 0} ⦃e : Eq K⦄ → (j k : K) → (j == k) ≡ false → j ≢ k
different ⦃e⦄ j k h q = cc ((e.same_iff j k).1 q, h)

module _ {K V : Type 0} ⦃e : Eq K⦄ where
  abbrev pub keys : Dict K V → List K
  keys = map (λ kv. kv.0)

  All-keys-insert :
      (P : K → Type 0) (k : K) (v : V) (m : Dict K V)
      → P k
      → All P (keys m)
      → All P (keys (insert k v m))
  unfolding insert
  All-keys-insert P k v [] p a = (p, tt)
  All-keys-insert P k v ((j, w) ∷ m) p a = elim (Bool-cases (j == k)) [
    | inl h ↦ rw h a
    | inr h ↦ rw h (a.0, All-keys-insert P k v m p a.1)
  ]

  pub Distinct-keys-insert :
      (k : K) (v : V) (m : Dict K V) → Distinct (keys m) → Distinct (keys (insert k v m))
  unfolding insert
  Distinct-keys-insert k v [] d = (tt, tt)
  Distinct-keys-insert k v ((j, w) ∷ m) d = elim (Bool-cases (j == k)) [
    | inl h ↦ rw h d
    | inr h ↦
        rw h
          (All-keys-insert (λ i. j ≢ i) k v m (different j k h) d.0, Distinct-keys-insert k v m d.1)
  ]
