-- ===== src/Agent/Access/Grants/Opening.antt =====
-- What an open session rests on, and what a refused request leaves behind.
use microtensor_compute.Common.{
  ℕ, ◌+◌, ◌<◌, ◌≡◌, refl, sym, ap, subst, inl, inr, Bool, true, false, List, [], ◌∷◌, ◌++◌, some,
  if◌then◌else◌, lookup, lookup-insert_self, In, All, Bool-cases, Option-cases, is_empty,
  from_option,
}
use microtensor_compute.Common.Text.{Text, text_instance}
use microtensor_compute.Protocol.Session.{
  SessionOpen, Problem, problems, well_formed_nonce, grant_blob,
}
use microtensor_compute.Agent.Access.Nonces.{accept, accept_all}
use microtensor_compute.Agent.Access.Nonces.Replay.{accept_no_replay}
use microtensor_compute.Agent.Access.Keys.{canonical, grant, others, key_line}
use microtensor_compute.Agent.Access.Keys.Canonical.{canonical_idem}
use microtensor_compute.Agent.Access.Grants.{
  OpenSession, SessionGrants, not_installed, no_evidence, Outcome, granted, refused, signer,
  attests, session_id_of, install, open_session,
}
use microtensor_compute.Agent.Access.Grants.Evidence.{attests_lem}

signer_sound :
    (verify : Text → Text → Text → Bool) (hotkeys : List Text) (message signature hotkey : Text)
    → signer verify hotkeys message signature ≡ some hotkey
    → (verify hotkey message signature ≡ true) × In hotkey hotkeys
unfolding signer
signer_sound verify [] message signature hotkey h = cc
signer_sound verify (k ∷ ks) message signature hotkey h =
    elim (Bool-cases (verify k message signature)) [
      | inl e ↦
          let same : some k ≡ some hotkey = rw e at h in
          let found = ap (from_option []) same in (rw (← found) e, inl (sym found))
      | inr e ↦
          let (v, i) = signer_sound verify ks message signature hotkey (rw e at h) in (v, inr i)
    ]

second_passes :
    (a b c : Bool) (x y z : Problem)
    → is_empty
        ((if a then [] else x ∷ []) ++ (if b then [] else y ∷ []) ++ (if c then z ∷ [] else []))
      ≡ true
    → b ≡ true
second_passes a true c x y z h = refl
second_passes true false c x y z h = cc
second_passes false false c x y z h = cc

no_problems-nonce :
    (r : SessionOpen) → is_empty (problems r) ≡ true → well_formed_nonce r.nonce ≡ true
unfolding problems
no_problems-nonce r h = second_passes _ _ _ _ _ _ h

-- What is true of a session that was just granted.
pub record IsGranted (verify : Text → Text → Text → Bool) (r : SessionOpen) (hotkeys : List Text)
    (now : ℕ) (before after : SessionGrants) (s : OpenSession) : Type 0 where
  pub signed : verify s.validator (grant_blob r.public_key r.nonce) r.signature ≡ true
  pub authorised : In s.validator hotkeys
  pub fresh : (accept r.nonce now before.nonces).0 ≡ true
  pub remembered : after.nonces ≡ (accept r.nonce now before.nonces).1
  pub key : canonical r.public_key ≡ some s.public_key
  pub installed :
      after.keys
      ≡ others (session_id_of r.nonce) before.keys
        ++ key_line s.public_key (session_id_of r.nonce) ∷ []
  pub entered : lookup (session_id_of r.nonce) after.open_sessions ≡ some s
  pub limited : s.expires_at ≡ now + before.ttl

-- Nothing of what lets a session in has changed, but that the nonce book may have moved on.
pub record IsUntouched (before after : SessionGrants) : Type 0 where
  pub keys : after.keys ≡ before.keys
  pub sessions : after.open_sessions ≡ before.open_sessions
  pub log : after.log ≡ before.log

abbrev pub Opens :
    (Text → Text → Text → Bool)
    → SessionOpen
    → List Text
    → ℕ
    → Bool
    → SessionGrants
    → Outcome × SessionGrants
    → Type 0
Opens verify r hotkeys now writable before (granted s, after) =
    IsGranted verify r hotkeys now before after s
Opens verify r hotkeys now writable before (refused no_evidence, after) = ⊥
Opens verify r hotkeys now writable before (refused not_installed, after) =
    IsUntouched before after × (writable ≡ false)
Opens verify r hotkeys now writable before (refused why, after) = IsUntouched before after

module _ (verify : Text → Text → Text → Bool) (r : SessionOpen) (hotkeys : List Text) (now : ℕ)
    (writable : Bool) (before : SessionGrants) where
  abbrev booked : SessionGrants
  booked = record before { nonces = (accept r.nonce now before.nonces).1 }

  install-Opens :
      (key validator : Text)
      → canonical r.public_key ≡ some key
      → attests r.nonce ≡ true
      → (verify validator (grant_blob r.public_key r.nonce) r.signature ≡ true)
        × In validator hotkeys
      → (accept r.nonce now before.nonces).0 ≡ true
      → Opens verify r hotkeys now writable before (install r key validator now writable booked)
  unfolding install grant
  install-Opens key validator c a v f = elim (Bool-cases writable) [
    | inr e ↦ rw e (record { keys = refl; sessions = refl; log = refl }, refl)
    | inl e ↦
        rw (e, canonical_idem r.public_key key c, a)
          (record {
            signed = v.0;
            authorised = v.1;
            fresh = f;
            remembered = refl;
            key = c;
            installed = refl;
            entered = lookup-insert_self (session_id_of r.nonce) _ before.open_sessions;
            limited = refl;
          })
  ]

  -- A session opens only for a request that an authorised hotkey signed, with a nonce that was not
  -- used; its key is then in the file and its entry in the table, with the time to live as limit.
  -- A refused request leaves the key file, the sessions and the log as they were, and the two
  -- failures behind the nonce check are never reached: the key that was accepted is installed,
  -- unless the file cannot be written, and the evidence is never refused.
  pub open_session-Opens :
      Opens verify r hotkeys now writable before (open_session verify r hotkeys now writable before)
  unfolding open_session
  open_session-Opens = elim (Bool-cases (is_empty (problems r))) [
    | inr e ↦ rw e (record { keys = refl; sessions = refl; log = refl })
    | inl e ↦ elim (Option-cases (canonical r.public_key)) [
      | inl c ↦ rw (e, c, open_session) (record { keys = refl; sessions = refl; log = refl })
      | inr (key, c) ↦
          let signed = signer verify hotkeys (grant_blob r.public_key r.nonce) r.signature in
          elim (Option-cases signed) [
            | inl s ↦
                rw (e, c, s, open_session) (record { keys = refl; sessions = refl; log = refl })
            | inr (validator, s) ↦ elim (Bool-cases (accept r.nonce now before.nonces).0) [
              | inr f ↦
                  rw (e, c, s, f, open_session)
                    (record { keys = refl; sessions = refl; log = refl })
              | inl f ↦
                  rw (e, c, s, f, open_session)
                    (install-Opens key validator c (attests_lem r.nonce (no_problems-nonce r e))
                      (signer_sound verify hotkeys _ _ validator s) f)
            ]
          ]
    ]
  ]

granted_fresh :
    (verify : Text → Text → Text → Bool) (r : SessionOpen) (hotkeys : List Text) (now : ℕ)
    (writable : Bool) (before after : SessionGrants) (s : OpenSession)
    → open_session verify r hotkeys now writable before ≡ (granted s, after)
    → IsGranted verify r hotkeys now before after s
granted_fresh verify r hotkeys now writable before after s h =
    subst (Opens verify r hotkeys now writable before) h
      (open_session-Opens verify r hotkeys now writable before)

-- A nonce opens one session: while the nonce book remembers it, no request that carries it is
-- granted, whoever signs it and whatever nonces the book was asked for in between.
pub open_session_no_replay :
    (verify : Text → Text → Text → Bool) (r r' : SessionOpen) (hotkeys hotkeys' : List Text)
    (now later : ℕ) (writable writable' : Bool) (before after g g' : SessionGrants)
    (s s' : OpenSession) (others : List (Text × ℕ))
    → r'.nonce ≡ r.nonce
    → open_session verify r hotkeys now writable before ≡ (granted s, after)
    → g.nonces ≡ accept_all others after.nonces
    → All (λ o. o.1 < now + before.nonces.ttl) others
    → later < now + before.nonces.ttl
    → ¬ (open_session verify r' hotkeys' later writable' g ≡ (granted s', g'))
open_session_no_replay verify r r' hs hs' now later w w' before after g g' s s' others same h book o
      l h' =
    let first = granted_fresh verify r hs now w before after s h in
    let again = granted_fresh verify r' hs' later w' g g' s' h' in
    let refusal = accept_no_replay r.nonce now later others before.nonces first.fresh o l in
    let repeated : (accept r.nonce later (accept_all others (accept r.nonce now before.nonces).1)).0
        ≡ true =
      rw (← first.remembered, ← book, ← same) again.fresh in
    cc
