-- ===== src/Common/Sort.antt =====
-- Python's stable `sorted`, by insertion under a Boolean order, and texts in code point order.
use Prim.Native.Nat.{Ordering}
use Prim.Native.String.{String, compare}
use mathlib.Core.Path.{◌≡◌, refl, sym}
use mathlib.Core.Bool.{Bool, true, false}
use mathlib.Core.Logic.{◌≢◌, ◌⊎◌, inl, inr}
use mathlib.Core.List.{List, [], ◌∷◌}
use native.Mathlib.Omega.{arith}
use microtensor_compute.Common.Tests.{if◌then◌else◌, Bool-cases}
use microtensor_compute.Common.Lists.{In, All, Distinct, length}

abbrev pub str_leb : String → String → Bool
str_leb s t = elim (compare s t) [ Ordering.gt ↦ false | _ ↦ true ]

module _ {A : Type 0} (le : A → A → Bool) where
  unfoldable pub insert_sorted : A → List A → List A
  insert_sorted x [] = x ∷ []
  insert_sorted x (y ∷ ys) = if le x y then x ∷ y ∷ ys else y ∷ insert_sorted x ys

  -- The last element is placed first, so equal elements keep their order.
  unfoldable pub sorted_by : List A → List A
  unfolding insert_sorted
  sorted_by [] = []
  sorted_by (x ∷ xs) = insert_sorted x (sorted_by xs)

  pub In-insert_sorted : (a x : A) (xs : List A) → In a (insert_sorted x xs) → In a (x ∷ xs)
  unfolding insert_sorted
  In-insert_sorted a x [] h = h
  In-insert_sorted a x (y ∷ ys) h = ground (arith, In-insert_sorted a x ys)

  pub In-sorted_by : (a : A) (xs : List A) → In a (sorted_by xs) → In a xs
  unfolding sorted_by
  In-sorted_by a [] h = h
  In-sorted_by a (x ∷ xs) h = elim (In-insert_sorted a x (sorted_by xs) h) [
    | inl e ↦ inl e
    | inr i ↦ inr (In-sorted_by a xs i)
  ]

  pub length-insert_sorted : (x : A) (xs : List A) → length (insert_sorted x xs) ≡ length (x ∷ xs)
  unfolding insert_sorted
  length-insert_sorted x [] = refl
  length-insert_sorted x (y ∷ ys) = ground (arith, length-insert_sorted x ys)

  pub length-sorted_by : (xs : List A) → length (sorted_by xs) ≡ length xs
  unfolding sorted_by
  length-sorted_by [] = refl
  length-sorted_by (x ∷ xs) =
      omega (arith, length-insert_sorted x (sorted_by xs), length-sorted_by xs)

  pub All-insert_sorted {κ} :
      (P : A → Type κ) (x : A) (xs : List A) → P x → All P xs → All P (insert_sorted x xs)
  unfolding insert_sorted
  All-insert_sorted P x [] p h = (p, tt)
  All-insert_sorted P x (y ∷ ys) p h = elim (Bool-cases (le x y)) [
    | inl e ↦ rw e (p, h)
    | inr e ↦ rw e (h.0, All-insert_sorted P x ys p h.1)
  ]

  pub All-sorted_by {κ} : (P : A → Type κ) (xs : List A) → All P xs → All P (sorted_by xs)
  unfolding sorted_by
  All-sorted_by P [] h = tt
  All-sorted_by P (x ∷ xs) h = All-insert_sorted P x (sorted_by xs) h.0 (All-sorted_by P xs h.1)

  All-from_insert {κ} :
      (P : A → Type κ) (x : A) (xs : List A) → All P (insert_sorted x xs) → P x × All P xs
  unfolding insert_sorted
  All-from_insert P x [] h = h
  All-from_insert P x (y ∷ ys) h = elim (Bool-cases (le x y)) [
    | inl e ↦ rw e at h
    | inr e ↦
        let h' : P y × All P (insert_sorted x ys) = rw e at h in
        let (px, pys) = All-from_insert P x ys h'.1 in (px, (h'.0, pys))
  ]

  pub All-from_sorted {κ} : (P : A → Type κ) (xs : List A) → All P (sorted_by xs) → All P xs
  unfolding sorted_by
  All-from_sorted P [] h = tt
  All-from_sorted P (x ∷ xs) h =
      let (px, rest) = All-from_insert P x (sorted_by xs) h in (px, All-from_sorted P xs rest)

  Distinct-insert_sorted :
      (x : A) (xs : List A) → All (λ y. x ≢ y) xs → Distinct xs → Distinct (insert_sorted x xs)
  unfolding insert_sorted
  Distinct-insert_sorted x [] h d = (tt, tt)
  Distinct-insert_sorted x (y ∷ ys) h d = elim (Bool-cases (le x y)) [
    | inl e ↦ rw e (h, d)
    | inr e ↦ rw e (
      All-insert_sorted (λ z. y ≢ z) x ys (λ q. h.0 (sym q)) d.0,
      Distinct-insert_sorted x ys h.1 d.1,
    )
  ]

  pub Distinct-sorted_by : (xs : List A) → Distinct xs → Distinct (sorted_by xs)
  unfolding sorted_by
  Distinct-sorted_by [] h = tt
  Distinct-sorted_by (x ∷ xs) h =
      Distinct-insert_sorted x (sorted_by xs) (All-sorted_by (λ y. x ≢ y) xs h.0)
        (Distinct-sorted_by xs h.1)

  -- Each element stands before those that it is below.
  abbrev pub Ascending : List A → Type 0
  Ascending [] = Unit {0}
  Ascending (x ∷ xs) = All (λ b. le x b ≡ true) xs × Ascending xs

-- A total and transitive order sorts: the result ascends.
module _ {A : Type 0} (le : A → A → Bool) (total : (a b : A) → (le a b ≡ true) ⊎ (le b a ≡ true))
    (trans : (a b c : A) → le a b ≡ true → le b c ≡ true → le a c ≡ true) where
  le-All :
      (x y : A) (ys : List A)
      → le x y ≡ true
      → All (λ b. le y b ≡ true) ys
      → All (λ b. le x b ≡ true) ys
  le-All x y [] h a = tt
  le-All x y (z ∷ zs) h a = (trans x y z h a.0, le-All x y zs h a.1)

  insert_sorted-Ascending :
      (x : A) (xs : List A) → Ascending le xs → Ascending le (insert_sorted le x xs)
  unfolding insert_sorted
  insert_sorted-Ascending x [] h = (tt, tt)
  insert_sorted-Ascending x (y ∷ ys) h = elim (Bool-cases (le x y)) [
    | inl e ↦ rw e ((e, le-All x y ys e h.0), h)
    | inr e ↦
        let yx : le y x ≡ true = elim (total x y) [ inl f ↦ cc | inr f ↦ f ] in
        rw e
          (All-insert_sorted le (λ b. le y b ≡ true) x ys yx h.0, insert_sorted-Ascending x ys h.1)
  ]

  pub sorted_by-Ascending : (xs : List A) → Ascending le (sorted_by le xs)
  unfolding sorted_by
  sorted_by-Ascending [] = tt
  sorted_by-Ascending (x ∷ xs) =
      insert_sorted-Ascending x (sorted_by le xs) (sorted_by-Ascending xs)
