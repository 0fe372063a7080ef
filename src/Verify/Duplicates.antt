-- ===== src/Verify/Duplicates.antt =====
-- validator/verify/duplicates.py: the cards that are enrolled on other rigs of the roster.
use microtensor_compute.Common.{
  ◌≡◌, refl, ◌∙◌, ◌&&◌, ◌||◌, not, Bool, true, false, List, [], ◌∷◌, ◌++◌, none, some, Dict, arith,
  if◌then◌else◌, is_empty, contains, any_of, lookup, insert, has_key, from_option, lookup-insert,
  Bool-cases, inl, inr, ap, sym,
}
use microtensor_compute.Common.Text.{Text, codes, text_eq, text_instance, text_eq_iff}
use microtensor_compute.Verify.Failures.{Verdict, duplicate_uuid, enrolled_on, passed}

pub record RosterRig : Type 0 where
  pub id : Text
  pub state : Text
  pub gpus : List Text

-- `index.setdefault(uuid, []).append(rig_id)` for the cards of a rig; a card without a uuid is "".
unfoldable pub index_cards : Text → List Text → Dict Text (List Text) → Dict Text (List Text)
unfolding lookup insert text_eq
index_cards rig_id [] index = index
index_cards rig_id (uuid ∷ uuids) index = index_cards rig_id uuids (
    if is_empty uuid
    then index
    else insert uuid (from_option [] (lookup uuid index) ++ rig_id ∷ []) index)

-- Whether `enrolment_index` reads a rig.
abbrev pub is_other : Text → RosterRig → Bool
is_other exclude rig =
    not (is_empty rig.id || text_eq rig.id exclude) && not (text_eq rig.state (codes "removed"))

unfoldable pub enrolment_index :
    List RosterRig → Text → Dict Text (List Text) → Dict Text (List Text)
unfolding index_cards text_eq
enrolment_index [] exclude index = index
enrolment_index (rig ∷ rigs) exclude index =
    enrolment_index rigs exclude
      (if is_other exclude rig then index_cards rig.id rig.gpus index else index)

-- The dictionary of the cards that are in the index, with the rigs that have them.
unfoldable pub duplicates_in :
    Dict Text (List Text) → List Text → Dict Text (List Text) → Dict Text (List Text)
unfolding lookup insert text_eq
duplicates_in index [] found = found
duplicates_in index (uuid ∷ uuids) found = duplicates_in index uuids (
    if not (is_empty uuid) && has_key uuid index
    then insert uuid (from_option [] (lookup uuid index)) found
    else found)

abbrev pub first_rig : List Text → Text
first_rig [] = []
first_rig (rig ∷ rigs) = rig

abbrev pub verdict_of : Dict Text (List Text) → Verdict
verdict_of [] = record { check = codes "duplicates"; failure = none }
verdict_of ((uuid, rigs) ∷ rest) = record {
  check = codes "duplicates";
  failure = some (record { kind = duplicate_uuid; detail = enrolled_on uuid (first_rig rigs) });
}

unfoldable pub check : List Text → Text → List RosterRig → Verdict
unfolding enrolment_index duplicates_in
check gpus rig_id roster = verdict_of (duplicates_in (enrolment_index roster rig_id []) gpus [])

reorder : (a b k c : Bool) → a ≡ b → ((a || k) || c) ≡ (k || (b || c))
reorder a b k c h = ground arith

or_assoc : (a b c : Bool) → ((a || b) || c) ≡ (a || (b || c))
or_assoc a b c = ground arith

text_eq_sym : (a b : Text) → text_eq a b ≡ text_eq b a
text_eq_sym a b = ground (arith, text_eq_iff a b, text_eq_iff b a)

has_key-insert :
    (key other : Text) (v : List Text) (m : Dict Text (List Text))
    → has_key other (insert key v m) ≡ (text_eq key other || has_key other m)
has_key-insert key other v m = ground (arith, lookup-insert key other v m)

has_key-index_cards :
    (u rig_id : Text) (uuids : List Text) (index : Dict Text (List Text))
    → is_empty u ≡ false
    → has_key u (index_cards rig_id uuids index) ≡ (has_key u index || contains u uuids)
unfolding index_cards contains
has_key-index_cards u rig_id [] index h = ground arith
has_key-index_cards u rig_id (uuid ∷ uuids) index h = elim (Bool-cases (is_empty uuid)) [
  | inl e ↦
      rw (e, index_cards)
        (has_key-index_cards u rig_id uuids index h ∙ ap (λ b. has_key u index || b) (sym (skip e)))
  | inr e ↦
      let rigs = from_option [] (lookup uuid index) ++ rig_id ∷ [] in
      rw (e, index_cards)
        (has_key-index_cards u rig_id uuids (insert uuid rigs index) h
          ∙ (ap (λ b. b || contains u uuids) (has_key-insert uuid u rigs index)
              ∙ reorder (text_eq uuid u) (text_eq u uuid) (has_key u index) (contains u uuids)
                  (text_eq_sym uuid u)))
]
  where
    skip : is_empty uuid ≡ true → (text_eq u uuid || contains u uuids) ≡ contains u uuids
    skip e = ground (arith, text_eq_iff u uuid)

-- A card is enrolled on another rig of the roster that is not removed.
abbrev pub enrolled_elsewhere : Text → List RosterRig → Text → Bool
enrolled_elsewhere rig_id roster uuid =
    any_of (λ rig. is_other rig_id rig && contains uuid rig.gpus) roster

has_key-enrolment_index :
    (u exclude : Text) (roster : List RosterRig) (index : Dict Text (List Text))
    → is_empty u ≡ false
    → has_key u (enrolment_index roster exclude index)
      ≡ (has_key u index || enrolled_elsewhere exclude roster u)
unfolding enrolment_index any_of
has_key-enrolment_index u exclude [] index h = ground arith
has_key-enrolment_index u exclude (rig ∷ rigs) index h = elim (Bool-cases (is_other exclude rig)) [
  | inl e ↦
      rw (e, enrolment_index)
        (has_key-enrolment_index u exclude rigs (index_cards rig.id rig.gpus index) h
          ∙ (ap (λ b. b || enrolled_elsewhere exclude rigs u)
                (has_key-index_cards u rig.id rig.gpus index h)
              ∙ or_assoc (has_key u index) (contains u rig.gpus)
                  (enrolled_elsewhere exclude rigs u)))
  | inr e ↦ rw (e, enrolment_index) (has_key-enrolment_index u exclude rigs index h)
]

is_empty-insert :
    (k : Text) (v : List Text) (m : Dict Text (List Text)) → is_empty (insert k v m) ≡ false
unfolding insert
is_empty-insert k v [] = refl
is_empty-insert k v ((j, w) ∷ m) = ground arith

abbrev is_known : Dict Text (List Text) → Text → Bool
is_known index uuid = not (is_empty uuid) && has_key uuid index

is_empty-duplicates_in :
    (index : Dict Text (List Text)) (uuids : List Text) (found : Dict Text (List Text))
    → is_empty (duplicates_in index uuids found)
      ≡ (is_empty found && not (any_of (is_known index) uuids))
unfolding duplicates_in any_of
is_empty-duplicates_in index [] found = ground arith
is_empty-duplicates_in index (uuid ∷ uuids) found = elim (Bool-cases (is_known index uuid)) [
  | inl e ↦
      let rigs = from_option [] (lookup uuid index) in
      rw (e, duplicates_in)
        (is_empty-duplicates_in index uuids (insert uuid rigs found)
          ∙ (ap (λ b. b && not (any_of (is_known index) uuids)) (is_empty-insert uuid rigs found)
              ∙ ground arith))
  | inr e ↦ rw (e, duplicates_in) (is_empty-duplicates_in index uuids found)
]

passed-verdict_of : (found : Dict Text (List Text)) → passed (verdict_of found) ≡ is_empty found
passed-verdict_of [] = refl
passed-verdict_of ((uuid, rigs) ∷ rest) = refl

any_known :
    (rig_id : Text) (roster : List RosterRig) (uuids : List Text)
    → any_of (is_known (enrolment_index roster rig_id [])) uuids
      ≡ any_of (λ uuid. not (is_empty uuid) && enrolled_elsewhere rig_id roster uuid) uuids
unfolding any_of lookup
any_known rig_id roster [] = refl
any_known rig_id roster (uuid ∷ uuids) = elim (Bool-cases (is_empty uuid)) [
  | inl e ↦ rw e (any_known rig_id roster uuids)
  | inr e ↦
      rw (e, has_key-enrolment_index uuid rig_id roster [] e)
        (ap (λ b. enrolled_elsewhere rig_id roster uuid || b) (any_known rig_id roster uuids))
]

-- The check passes exactly where no card of the rig that has a uuid is enrolled on another rig of
-- the roster, one that has an id and is not removed.
pub passed-check :
    (gpus : List Text) (rig_id : Text) (roster : List RosterRig)
    → passed (check gpus rig_id roster)
      ≡ not (any_of (λ uuid. not (is_empty uuid) && enrolled_elsewhere rig_id roster uuid) gpus)
unfolding check
passed-check gpus rig_id roster =
    passed-verdict_of (duplicates_in (enrolment_index roster rig_id []) gpus [])
    ∙ (is_empty-duplicates_in (enrolment_index roster rig_id []) gpus []
        ∙ ap not (any_known rig_id roster gpus))
