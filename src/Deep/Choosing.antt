-- ===== src/Deep/Choosing.antt =====
-- Which rigs Deep.Due adds for the express lane.
use microtensor_compute.Common.{
  ℕ, ◌≡◌, refl, sym, subst, inl, inr, ◌≢◌, ◌&&◌, ◌||◌, not, Bool, true, false, List, [], ◌∷◌, ◌++◌,
  Option, contains, arith, Bool-cases, All, All-mono, Distinct,
}
use microtensor_compute.Common.Text.{Text, text_eq, text_eq_refl, text_instance}
use microtensor_compute.Deep.Due.{DueRig, is_verifiable, early_rigs, ids, due_at_first, due_rigs}

abbrev is_wanted : List Text → List Text → DueRig → Bool
is_wanted early chosen rig =
    contains rig.id early && not (contains rig.id chosen) && is_verifiable rig

-- A rig that is added: wanted early, in a state that is verified and not among the chosen ones.
abbrev pub IsAdded : List Text → List Text → DueRig → Type 0
IsAdded early chosen rig =
    (contains rig.id early ≡ true) × (contains rig.id chosen ≡ false) × (is_verifiable rig ≡ true)

wanted-IsAdded :
    (early chosen : List Text) (rig : DueRig)
    → is_wanted early chosen rig ≡ true
    → IsAdded early chosen rig
wanted-IsAdded early chosen rig h =
    each (contains rig.id early) (contains rig.id chosen) (is_verifiable rig) h
  where
    each : (a b c : Bool) → (a && not b && c) ≡ true → (a ≡ true) × (b ≡ false) × (c ≡ true)
    each a b c h = (ground (arith, h), ground (arith, h), ground (arith, h))

fewer_chosen :
    (early chosen : List Text) (first rig : DueRig)
    → IsAdded early (first.id ∷ chosen) rig
    → IsAdded early chosen rig × (first.id ≢ rig.id)
unfolding contains
fewer_chosen early chosen first rig a = (
  (a.0, second (text_eq rig.id first.id) (contains rig.id chosen) a.1, a.2),
  λ e. absurd (
      cc (
        head (text_eq rig.id first.id) (contains rig.id chosen) a.1,
        subst (λ t. text_eq rig.id t ≡ true) (sym e) (text_eq_refl rig.id),
      )),
)
  where
    second : (a b : Bool) → (a || b) ≡ false → b ≡ false
    second a b h = ground (arith, h)

    head : (a b : Bool) → (a || b) ≡ false → a ≡ false
    head a b h = ground (arith, h)

abbrev Adds : List Text → List Text → List DueRig → Type 0
Adds early chosen added = All (IsAdded early chosen) added × Distinct (ids added)

put_first :
    (early chosen : List Text) (rig : DueRig) (added : List DueRig)
    → IsAdded early chosen rig
    → Adds early (rig.id ∷ chosen) added
    → Adds early chosen (rig ∷ added)
put_first early chosen rig added a rest = (
  (a, All-mono _ _ added (λ r h. (fewer_chosen early chosen rig r h).0) rest.0),
  (others added rest.0, rest.1),
)
  where
    others :
        (more : List DueRig)
        → All (IsAdded early (rig.id ∷ chosen)) more
        → All (λ other. rig.id ≢ other) (ids more)
    others [] h = tt
    others (r ∷ more) h = ((fewer_chosen early chosen rig r h.0).1, others more h.1)

early_rigs-Adds :
    (early chosen : List Text) (roster : List DueRig)
    → Adds early chosen (early_rigs early chosen roster)
unfolding early_rigs
early_rigs-Adds early chosen [] = (tt, tt)
early_rigs-Adds early chosen (rig ∷ rigs) = elim (Bool-cases (is_wanted early chosen rig)) [
  | inl e ↦
      rw (e, early_rigs)
        (put_first early chosen rig (early_rigs early (rig.id ∷ chosen) rigs)
          (wanted-IsAdded early chosen rig e) (early_rigs-Adds early (rig.id ∷ chosen) rigs))
  | inr e ↦ rw (e, early_rigs) (early_rigs-Adds early chosen rigs)
]

-- A rig that is wanted early, and whose state is one that is verified, is chosen already or added.
abbrev is_served : List Text → List Text → List Text → DueRig → Bool
is_served early chosen added rig =
    not (contains rig.id early && is_verifiable rig)
    || contains rig.id chosen
    || contains rig.id added

abbrev IsServed : List Text → List Text → List Text → DueRig → Type 0
IsServed early chosen added rig = is_served early chosen added rig ≡ true

holds_later :
    (early chosen added : List Text) (first rig : DueRig)
    → IsServed early (first.id ∷ chosen) added rig
    → IsServed early chosen (first.id ∷ added) rig
unfolding contains
holds_later early chosen added first rig h =
    turned (not (contains rig.id early && is_verifiable rig)) (text_eq rig.id first.id)
      (contains rig.id chosen) (contains rig.id added) h
  where
    turned : (w a b c : Bool) → (w || (a || b) || c) ≡ true → (w || b || (a || c)) ≡ true
    turned w a b c k = ground (arith, k)

holds_first :
    (early chosen added : List Text) (rig : DueRig) → IsServed early chosen (rig.id ∷ added) rig
unfolding contains
holds_first early chosen added rig =
    found (not (contains rig.id early && is_verifiable rig)) (contains rig.id chosen)
      (text_eq rig.id rig.id) (contains rig.id added) (text_eq_refl rig.id)
  where
    found : (w a b c : Bool) → b ≡ true → (w || a || (b || c)) ≡ true
    found w a b c h = ground (arith, h)

first_chosen :
    (early chosen added : List Text) (rig : DueRig)
    → is_wanted early chosen rig ≡ false
    → IsServed early chosen added rig
first_chosen early chosen added rig w =
    is_there (contains rig.id early) (contains rig.id chosen) (is_verifiable rig)
      (contains rig.id added) w
  where
    is_there : (a b c d : Bool) → (a && not b && c) ≡ false → (not (a && c) || b || d) ≡ true
    is_there a b c d w = ground (arith, w)

early_rigs-Served :
    (early chosen : List Text) (roster : List DueRig)
    → All (IsServed early chosen (ids (early_rigs early chosen roster))) roster
unfolding early_rigs
early_rigs-Served early chosen [] = tt
early_rigs-Served early chosen (rig ∷ rigs) = elim (Bool-cases (is_wanted early chosen rig)) [
  | inl e ↦
      let rest = early_rigs early (rig.id ∷ chosen) rigs in
      let found : early_rigs early chosen (rig ∷ rigs) ≡ rig ∷ rest = rw (e, early_rigs) refl in
      subst (λ f. All (IsServed early chosen (ids f)) (rig ∷ rigs)) (sym found)
        (
          holds_first early chosen (ids rest) rig,
          All-mono (IsServed early (rig.id ∷ chosen) (ids rest))
              (IsServed early chosen (rig.id ∷ ids rest)) rigs
              (λ r h. holds_later early chosen (ids rest) rig r h)
              (early_rigs-Served early (rig.id ∷ chosen) rigs),
        )
  | inr e ↦
      let rest = early_rigs early chosen rigs in
      let found : early_rigs early chosen (rig ∷ rigs) ≡ rest = rw (e, early_rigs) refl in
      subst (λ f. All (IsServed early chosen (ids f)) (rig ∷ rigs)) (sym found)
        (first_chosen early chosen (ids rest) rig e, early_rigs-Served early chosen rigs)
]

-- What a pass takes: the rigs that are due, then others, each once, that are wanted early and in a
-- state that is verified; and no such rig of the roster is left out.
pub record IsDue (early : List Text) (roster due taken : List DueRig) : Type 0 where
  pub added : List DueRig
  pub taken_is : taken ≡ due ++ added
  pub all_added : All (IsAdded early (ids due)) added
  pub once : Distinct (ids added)
  pub all_served : All (IsServed early (ids due) (ids added)) roster

-- A deep pass takes the rigs that are due and, each once, those that the express lane wants early
-- and whose state is one that is verified; it leaves none of them out and adds none that is due
-- already.
pub due_rigs-IsDue :
    (read_moment : Text → Option ℕ) (deep_seconds server_interval now : ℕ)
    (roster answer : List DueRig) (early : List Text)
    → IsDue early roster
        (due_at_first read_moment deep_seconds server_interval now roster answer)
        (due_rigs read_moment deep_seconds server_interval now roster answer early)
unfolding due_rigs
due_rigs-IsDue read_moment deep_seconds server_interval now roster answer early =
    let due = due_at_first read_moment deep_seconds server_interval now roster answer in
    let adds = early_rigs-Adds early (ids due) roster in
    record {
      added = early_rigs early (ids due) roster;
      taken_is = refl;
      all_added = adds.0;
      once = adds.1;
      all_served = early_rigs-Served early (ids due) roster;
    }
