-- ===== src/Agent/Access/Keys/Revoking.antt =====
-- What a grant puts in, a revocation takes out, and it takes out nothing else.
use microtensor_compute.Common.{
  ◌≡◌, refl, sym, ap, ◌∙◌, inl, inr, not, Bool, true, false, List, [], ◌∷◌, ◌++◌, Option, none,
  some, arith, eqb, eqb_iff, length, length-keep_if-le, keep_if, All, All-mono, keep_if-Holds,
  Bool-cases, from_option, append_assoc, any_of,
}
use microtensor_compute.Common.Text.{Text, ends_with-append}
use microtensor_compute.Agent.Access.Keys.{canonical, tag, is_of, others, key_line, grant, revoke}

keep_if_all :
    (p : Text → Bool) (lines : List Text)
    → length (keep_if p lines) ≡ length lines
    → keep_if p lines ≡ lines
unfolding keep_if
keep_if_all p [] h = refl
keep_if_all p (l ∷ ls) h = ground (arith, keep_if_all p ls, length-keep_if-le p ls)

keep_if_again :
    (p : Text → Bool) (lines : List Text) → keep_if p (keep_if p lines) ≡ keep_if p lines
unfolding keep_if
keep_if_again p [] = refl
keep_if_again p (l ∷ ls) = ground (arith, keep_if_again p ls)

keep_if-snoc :
    (p : Text → Bool) (lines : List Text) (line : Text)
    → p line ≡ false
    → keep_if p (lines ++ line ∷ []) ≡ keep_if p lines
unfolding keep_if
keep_if-snoc p [] line h = rw h refl
keep_if-snoc p (l ∷ ls) line h = ground (arith, keep_if-snoc p ls line h)

-- After a revocation the file holds what it held, in its order, less the lines of the session.
pub lines-revoke :
    (session_id : Text) (lines : List Text) → (revoke session_id lines).1 ≡ others session_id lines
unfolding revoke
lines-revoke sid lines = elim (Bool-cases (eqb (length (others sid lines)) (length lines))) [
  | inl e ↦ rw e (sym (keep_if_all (λ l. not (is_of sid l)) lines ((eqb_iff _ (length lines)).0 e)))
  | inr e ↦ rw e refl
]

length-others :
    (p : Text → Bool) (lines : List Text)
    → eqb (length (keep_if (λ l. not (p l)) lines)) (length lines) ≡ not (any_of p lines)
unfolding keep_if any_of
length-others p [] = refl
length-others p (l ∷ ls) = ground (arith, length-others p ls, length-keep_if-le (λ l. not (p l)) ls)

revoke_found :
    (session_id : Text) (lines : List Text)
    → (revoke session_id lines).0 ≡ any_of (is_of session_id) lines
unfolding revoke
revoke_found sid lines = ground (arith, length-others (is_of sid) lines)

key_line-is_of : (key sid : Text) → is_of sid (key_line key sid) ≡ true
key_line-is_of key sid =
    rw (sym (append_assoc key (32 ∷ []) (tag sid))) (ends_with-append (key ++ 32 ∷ []) (tag sid))

-- Revoking what was just granted leaves the lines of the other sessions and of the owner as they
-- were before the grant, in their order, and no line of the session.
pub revoke-grant :
    (public_key session_id : Text) (lines granted : List Text)
    → grant public_key session_id lines ≡ some granted
    → (revoke session_id granted).1 ≡ others session_id lines
unfolding grant
revoke-grant public_key sid lines granted h =
    lines-revoke sid granted ∙ granted_others (canonical public_key) refl
  where
    granted_others :
        (c : Option Text) → canonical public_key ≡ c → others sid granted ≡ others sid lines
    granted_others none e = let h' = rw (e, grant) at h in cc
    granted_others (some key) e =
        let stored : some (others sid lines ++ key_line key sid ∷ []) ≡ some granted =
          rw (e, grant) at h in
        rw (← ap (from_option []) stored) (
          keep_if-snoc (λ l. not (is_of sid l)) (others sid lines) (key_line key sid)
            (ap not (key_line-is_of key sid))
          ∙ keep_if_again (λ l. not (is_of sid l)) lines)

-- After a revocation no line is the session's, and the answer says whether one was there.
pub revoke_complete :
    (session_id : Text) (lines : List Text)
    → All (λ line. is_of session_id line ≡ false) (revoke session_id lines).1
      × ((revoke session_id lines).0 ≡ any_of (is_of session_id) lines)
revoke_complete sid lines = (rw (lines-revoke sid lines) (clean lines), found)
  where
    clean : (ls : List Text) → All (λ line. is_of sid line ≡ false) (others sid ls)
    clean ls =
        All-mono (λ l. not (is_of sid l) ≡ true) (λ l. is_of sid l ≡ false) (others sid ls)
          (λ l e. ground (arith, e)) (keep_if-Holds (λ l. not (is_of sid l)) ls)

    found : (revoke sid lines).0 ≡ any_of (is_of sid) lines
    found = revoke_found sid lines
