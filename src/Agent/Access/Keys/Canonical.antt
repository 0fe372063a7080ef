-- ===== src/Agent/Access/Keys/Canonical.antt =====
-- The canonical form of a key is its own canonical form.
use microtensor_compute.Common.{
  ℕ, ◌≡◌, refl, sym, ap, ◌∙◌, inl, inr, ◌&&◌, Bool, true, false, List, [], ◌∷◌, ◌++◌, some, arith,
  eqb, all_of, contains, is_empty, All, Bool-cases, subst, from_option, append-nil,
}
use microtensor_compute.Common.Text.{
  Text, text_instance, text_eq, text_eq_iff, is_space, words_from, split_words, NoSpace,
  words_from-word,
}
use microtensor_compute.Agent.Access.Keys.{
  key_types, is_base64, key_body, canonical_words, canonical,
}

is_base64-no_space : (c : ℕ) → is_base64 c ≡ true → is_space c ≡ false
unfolding is_base64 is_space
is_base64-no_space c h = ground arith

padding-NoSpace : (cs : Text) → all_of (λ d. eqb d b'=') cs ≡ true → NoSpace cs
unfolding all_of is_space
padding-NoSpace [] h = tt
padding-NoSpace (c ∷ cs) h = (ground arith, padding-NoSpace cs (ground arith))

key_body-NoSpace : (seen : Bool) (cs : Text) → key_body seen cs ≡ true → NoSpace cs
unfolding key_body
key_body-NoSpace seen [] h = tt
key_body-NoSpace seen (c ∷ cs) h = elim (Bool-cases (is_base64 c)) [
  | inl e ↦ (is_base64-no_space c e, key_body-NoSpace true cs (rw e at h))
  | inr e ↦ padding-NoSpace (c ∷ cs) (ground arith)
]

-- A word that `split` gives back.
abbrev IsWord : Text → Type 0
IsWord word = NoSpace word × (is_empty word ≡ false)

key_types-IsWord : All IsWord key_types
unfolding is_space
key_types-IsWord = assumption refl

contains-IsWord :
    (kinds : List Text) (kind : Text) → All IsWord kinds → contains kind kinds ≡ true → IsWord kind
unfolding contains
contains-IsWord [] kind a h = cc
contains-IsWord (k ∷ ks) kind a h = elim (Bool-cases (text_eq kind k)) [
  | inl e ↦ rw ((text_eq_iff kind k).0 e) a.0
  | inr e ↦ contains-IsWord ks kind a.1 (rw e at h)
]

last_word : (b : Text) → IsWord b → words_from [] b ≡ b ∷ []
unfolding words_from
last_word b h =
    ap (words_from []) (sym (append-nil b)) ∙ (words_from-word [] b [] h.0 ∙ rw h.1 refl)

key_body-IsWord : (b : Text) → key_body false b ≡ true → IsWord b
unfolding key_body
key_body-IsWord [] h = cc
key_body-IsWord (c ∷ cs) h = (unfold key_body in key_body-NoSpace false (c ∷ cs) h, refl)

split_words-two : (a b : Text) → IsWord a → IsWord b → split_words (a ++ 32 ∷ b) ≡ a ∷ b ∷ []
unfolding split_words
split_words-two a b ha hb =
    words_from-word [] a (32 ∷ b) ha.0 ∙ rw (ha.1, words_from) (ap (◌∷◌ a) (last_word b hb))

canonical_words_idem :
    (words : List Text) (key : Text) → canonical_words words ≡ some key → canonical key ≡ some key
unfolding canonical_words
canonical_words_idem [] key h = cc
canonical_words_idem (kind ∷ []) key h = cc
canonical_words_idem (kind ∷ body ∷ more) key h =
    elim (Bool-cases (contains kind key_types && key_body false body)) [
      | inr bad ↦ let h' = rw bad at h in cc
      | inl good ↦
          let same : some (kind ++ 32 ∷ body) ≡ some key = rw good at h in
          let known : contains kind key_types ≡ true = ground arith in
          let formed : key_body false body ≡ true = ground arith in
          let two =
            split_words-two kind body (contains-IsWord key_types kind key_types-IsWord known)
              (key_body-IsWord body formed) in
          subst (λ k. canonical k ≡ some k) (ap (from_option []) same)
            (unfold canonical in rw (two, good) refl)
    ]

-- A key that was accepted is accepted again, and unchanged.
pub canonical_idem :
    (public_key key : Text) → canonical public_key ≡ some key → canonical key ≡ some key
canonical_idem public_key key h =
    canonical_words_idem (split_words public_key) key (unfold canonical in h)
