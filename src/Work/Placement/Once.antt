-- ===== src/Work/Placement/Once.antt =====
-- No card is chosen twice.
use microtensor_compute.Common.{
  ℕ, ◌-◌, ◌≡◌, ◌≢◌, refl, sym, ap, subst, inl, inr, ◌&&◌, not, Bool, true, ◌∙◌, zero, suc, List, [],
  ◌∷◌, ◌++◌, Dict, arith, if◌then◌else◌, is_empty, all_of, any_of, length, take, map, keep_if,
  Bool-cases, Option-cases, In, All, All-mono, All-take, All-append, All-keep_if, All-of_In,
  keep_if-Holds, Distinct, insert, has_key, keys, Distinct-keys-insert,
}
use microtensor_compute.Common.Text.{Text, text_instance}
use microtensor_compute.Work.Tiers.{WorkKind}
use microtensor_compute.Work.Rigs.{
  JobRecord, Rig, kind_of, can_share, can_displace, no_jobs, append_to, append_jobs, occupancy,
}
use microtensor_compute.Work.Placement.{
  Card, free_cards, shareable_cards, displaceable_cards, chosen_kept, chosen_displaced,
}

pub All-In : {A : Type 0} → (xs : List A) → All (λ x. In x xs) xs
All-In [] = tt
All-In (x ∷ xs) =
    (inl refl, All-mono (λ y. In y xs) (λ y. In y (x ∷ xs)) xs (λ y i. inr i) (All-In xs))

pub right : (a b : Bool) → a && b ≡ true → b ≡ true
right a b h = ground arith

abbrev pub OfTable : List Card → Card → Type 0
OfTable table c = In c table

pub chosen_kept-In :
    (kind : WorkKind) (n : ℕ) (table : List Card) → All (OfTable table) (chosen_kept kind n table)
unfolding chosen_kept
chosen_kept-In kind n table =
    All-append (OfTable table) (take n (free_cards table)) _
      (All-take (OfTable table) n (free_cards table)
        (All-keep_if (OfTable table) (λ c. is_empty c.1) table (All-In table)))
      (All-take (OfTable table) (n - length (take n (free_cards table)))
        (shareable_cards kind table)
        (All-keep_if (OfTable table) (λ c. not (is_empty c.1) && can_share c.1 kind) table
          (All-In table)))

pub chosen_displaced-In :
    (kind : WorkKind) (n : ℕ) (table : List Card)
    → All (OfTable table) (chosen_displaced kind n table)
unfolding chosen_displaced
chosen_displaced-In kind n table =
    All-take (OfTable table) (n - length (chosen_kept kind n table)) (displaceable_cards kind table)
      (All-keep_if (OfTable table) (λ c. not (is_empty c.1) && can_displace c.1 kind) table
        (All-In table))

abbrev pub uuids_of : List Card → List Text
uuids_of = map (λ c. c.0)

-- The keys of the table of a rig's cards.
no_jobs-Distinct :
    (uuids : List Text) (table : Dict Text (List JobRecord))
    → Distinct (keys table)
    → Distinct (keys (no_jobs uuids table))
unfolding no_jobs
no_jobs-Distinct [] table d = d
no_jobs-Distinct (uuid ∷ uuids) table d =
    no_jobs-Distinct uuids (insert uuid [] table) (Distinct-keys-insert uuid [] table d)

append_to-Distinct :
    (job : JobRecord) (uuids : List Text) (table : Dict Text (List JobRecord))
    → Distinct (keys table)
    → Distinct (keys (append_to job uuids table))
unfolding append_to
append_to-Distinct job [] table d = d
append_to-Distinct job (uuid ∷ uuids) table d =
    append_to-Distinct job uuids _ (Distinct-keys-insert uuid _ table d)

append_jobs-Distinct :
    (uuids : List Text) (jobs : List JobRecord) (table : Dict Text (List JobRecord))
    → Distinct (keys table)
    → Distinct (keys (append_jobs uuids jobs table))
unfolding append_jobs
append_jobs-Distinct uuids [] table d = d
append_jobs-Distinct uuids (job ∷ jobs) table d =
    let targets =
      if not (is_empty job.gpu_uuid) && has_key job.gpu_uuid table
      then job.gpu_uuid ∷ []
      else uuids in
    append_jobs-Distinct uuids jobs (append_to job targets table)
      (append_to-Distinct job targets table d)

pub occupancy-Distinct :
    (rig : Rig) (jobs : List JobRecord) → Distinct (uuids_of (occupancy rig jobs))
unfolding occupancy
occupancy-Distinct rig jobs =
    let uuids = keep_if (λ uuid. not (is_empty uuid)) rig.gpus in
    append_jobs-Distinct uuids jobs (no_jobs uuids []) (no_jobs-Distinct uuids [] tt)

-- What is true of the uuids that stay.
All-uuids-keep_if :
    (P : Text → Type 0) (p : Card → Bool) (table : List Card)
    → All P (uuids_of table)
    → All P (uuids_of (keep_if p table))
unfolding keep_if
All-uuids-keep_if P p [] a = tt
All-uuids-keep_if P p (c ∷ cs) a = elim (Bool-cases (p c)) [
  | inl e ↦ rw e (a.0, All-uuids-keep_if P p cs a.1)
  | inr e ↦ rw e (All-uuids-keep_if P p cs a.1)
]

Distinct-uuids-keep_if :
    (p : Card → Bool) (table : List Card)
    → Distinct (uuids_of table)
    → Distinct (uuids_of (keep_if p table))
unfolding keep_if
Distinct-uuids-keep_if p [] d = tt
Distinct-uuids-keep_if p (c ∷ cs) d = elim (Bool-cases (p c)) [
  | inl e ↦ rw e (All-uuids-keep_if _ p cs d.0, Distinct-uuids-keep_if p cs d.1)
  | inr e ↦ rw e (Distinct-uuids-keep_if p cs d.1)
]

All-uuids-take :
    (P : Text → Type 0) (n : ℕ) (table : List Card)
    → All P (uuids_of table)
    → All P (uuids_of (take n table))
All-uuids-take P zero cs a = tt
All-uuids-take P (suc n) [] a = tt
All-uuids-take P (suc n) (c ∷ cs) a = (a.0, All-uuids-take P n cs a.1)

Distinct-uuids-take :
    (n : ℕ) (table : List Card) → Distinct (uuids_of table) → Distinct (uuids_of (take n table))
Distinct-uuids-take zero cs d = tt
Distinct-uuids-take (suc n) [] d = tt
Distinct-uuids-take (suc n) (c ∷ cs) d = (All-uuids-take _ n cs d.0, Distinct-uuids-take n cs d.1)

-- No card of the one list is a card of the other.
abbrev Apart : List Card → List Card → Type 0
Apart xs ys = All (λ x. All (λ y. x.0 ≢ y.0) ys) xs

All-uuids-append :
    (P : Text → Type 0) (xs ys : List Card)
    → All P (uuids_of xs)
    → All (λ y. P y.0) ys
    → All P (uuids_of (xs ++ ys))
All-uuids-append P [] [] a b = tt
All-uuids-append P [] (y ∷ ys) a b = (b.0, All-uuids-append P [] ys a b.1)
All-uuids-append P (x ∷ xs) ys a b = (a.0, All-uuids-append P xs ys a.1 b)

Distinct-uuids-append :
    (xs ys : List Card)
    → Distinct (uuids_of xs)
    → Distinct (uuids_of ys)
    → Apart xs ys
    → Distinct (uuids_of (xs ++ ys))
Distinct-uuids-append [] ys d f a = f
Distinct-uuids-append (x ∷ xs) ys d f a =
    (All-uuids-append (λ u. x.0 ≢ u) xs ys d.0 a.0, Distinct-uuids-append xs ys d.1 f a.1)

In-uuids : (c : Card) (table : List Card) → In c table → In c.0 (uuids_of table)
In-uuids c [] i = i
In-uuids c (x ∷ xs) (inl e) = inl (ap (λ d. d.0) e)
In-uuids c (x ∷ xs) (inr i) = inr (In-uuids c xs i)

-- In a table whose uuids are distinct a uuid names one card.
same_card :
    (x y : Card) (table : List Card)
    → Distinct (uuids_of table)
    → In x table
    → In y table
    → x.0 ≡ y.0
    → x ≡ y
same_card x y [] d i j e = absurd i
same_card x y (c ∷ cs) d (inl i) (inl j) e = i ∙ sym j
same_card x y (c ∷ cs) d (inl i) (inr j) e =
    absurd
      (All-of_In (λ u. c.0 ≢ u) (uuids_of cs) y.0 d.0 (In-uuids y cs j) (sym (ap (λ k. k.0) i) ∙ e))
same_card x y (c ∷ cs) d (inr i) (inl j) e = absurd (
    All-of_In (λ u. c.0 ≢ u) (uuids_of cs) x.0 d.0 (In-uuids x cs i)
      (sym (ap (λ k. k.0) j) ∙ sym e))
same_card x y (c ∷ cs) d (inr i) (inr j) e = same_card x y cs d.1 i j e

-- Cards of the table that differ in a property.
Apart-of :
    (P Q : Card → Type 0) (table xs ys : List Card)
    → Distinct (uuids_of table)
    → ((c : Card) → P c → Q c → ⊥)
    → All (OfTable table) xs
    → All P xs
    → All (OfTable table) ys
    → All Q ys
    → Apart xs ys
Apart-of P Q table [] ys d ex i p j q = tt
Apart-of P Q table (x ∷ xs) ys d ex i p j q =
    (from_one ys j q, Apart-of P Q table xs ys d ex i.1 p.1 j q)
  where
    from_one : (zs : List Card) → All (OfTable table) zs → All Q zs → All (λ y. x.0 ≢ y.0) zs
    from_one [] j q = tt
    from_one (z ∷ zs) j q =
        (λ e. ex x p.0 (subst Q (sym (same_card x z table d i.0 j.0 e)) q.0), from_one zs j.1 q.1)

abbrev IsFree : Card → Type 0
IsFree c = is_empty c.1 ≡ true

abbrev IsShareable : WorkKind → Card → Type 0
IsShareable kind c = not (is_empty c.1) && can_share c.1 kind ≡ true

abbrev IsDisplaceable : WorkKind → Card → Type 0
IsDisplaceable kind c = not (is_empty c.1) && can_displace c.1 kind ≡ true

taken-In :
    (p : Card → Bool) (n : ℕ) (table : List Card) → All (OfTable table) (take n (keep_if p table))
taken-In p n table =
    All-take (OfTable table) n (keep_if p table)
      (All-keep_if (OfTable table) p table (All-In table))

taken-Holds :
    (p : Card → Bool) (n : ℕ) (table : List Card) → All (λ c. p c ≡ true) (take n (keep_if p table))
taken-Holds p n table = All-take _ n (keep_if p table) (keep_if-Holds p table)

taken-Distinct :
    (p : Card → Bool) (n : ℕ) (table : List Card)
    → Distinct (uuids_of table)
    → Distinct (uuids_of (take n (keep_if p table)))
taken-Distinct p n table d =
    Distinct-uuids-take n (keep_if p table) (Distinct-uuids-keep_if p table d)

not_both : (a b : Bool) → a ≡ true → not a && b ≡ true → ⊥
not_both a b h k = ground arith

chosen_kept-Distinct :
    (kind : WorkKind) (n : ℕ) (table : List Card)
    → Distinct (uuids_of table)
    → Distinct (uuids_of (chosen_kept kind n table))
unfolding chosen_kept
chosen_kept-Distinct kind n table d =
    let more = n - length (take n (free_cards table)) in
    let shared : Card → Bool = λ c. not (is_empty c.1) && can_share c.1 kind in
    Distinct-uuids-append (take n (free_cards table)) (take more (shareable_cards kind table))
      (taken-Distinct (λ c. is_empty c.1) n table d) (taken-Distinct shared more table d)
      (Apart-of IsFree (IsShareable kind) table _ _ d
        (λ c. not_both (is_empty c.1) (can_share c.1 kind)) (taken-In (λ c. is_empty c.1) n table)
        (taken-Holds (λ c. is_empty c.1) n table) (taken-In shared more table)
        (taken-Holds shared more table))

-- A card that may be shared holds customers' jobs only, and one whose jobs go holds none.
kept_or_taken :
    (kind : WorkKind) (jobs : List JobRecord)
    → can_share jobs kind ≡ true
    → not (is_empty jobs) && can_displace jobs kind ≡ true
    → ⊥
unfolding can_share can_displace any_of all_of
kept_or_taken kind [] h k = cc
kept_or_taken kind (job ∷ jobs) h k = elim (Option-cases (kind_of job.kind)) [
  | inl e ↦ let k' = rw e at k in ground arith
  | inr (current, e) ↦ let h' = rw e at h in let k' = rw e at k in ground arith
]

pub chosen-Distinct :
    (kind : WorkKind) (n : ℕ) (table : List Card)
    → Distinct (uuids_of table)
    → All (λ c. can_share c.1 kind ≡ true) (chosen_kept kind n table)
    → Distinct (uuids_of (chosen_kept kind n table ++ chosen_displaced kind n table))
unfolding chosen_displaced
chosen-Distinct kind n table d kept =
    let more = n - length (chosen_kept kind n table) in
    let going : Card → Bool = λ c. not (is_empty c.1) && can_displace c.1 kind in
    Distinct-uuids-append (chosen_kept kind n table) (take more (displaceable_cards kind table))
      (chosen_kept-Distinct kind n table d) (taken-Distinct going more table d)
      (Apart-of (λ c. can_share c.1 kind ≡ true) (IsDisplaceable kind) table _ _ d
        (λ c. kept_or_taken kind c.1) (chosen_kept-In kind n table) kept (taken-In going more table)
        (taken-Holds going more table))
