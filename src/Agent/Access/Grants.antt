-- ===== src/Agent/Access/Grants.antt =====
-- agent/access/grants.py: the sessions that the rig grants. The state is the key file, the table of
-- open sessions, the nonce book and the event log; the clock is an argument of each method.
pub mod Evidence
pub mod Opening
pub mod Sweeping
pub mod Examples
use microtensor_compute.Common.{
  ℕ, ◌+◌, ◌&&◌, ◌||◌, not, Bool, true, false, List, [], ◌∷◌, ◌++◌, Option, none, some, Dict, map,
  if◌then◌else◌, leb, eqb, ltb, length, keep_if, is_empty, contains, take, lookup, insert, erase,
  has_key, is_some,
}
use microtensor_compute.Common.Text.{Text, codes, text_instance, text_eq, strip, lower, after_last}
use microtensor_compute.Protocol.Session.{SessionOpen, Problem, problems, grant_blob}
use microtensor_compute.Agent.Access.Nonces.{NonceBook, well_formed, expire, accept}
use microtensor_compute.Agent.Access.Keys.{canonical, grant, revoke, revoke_all_sessions, marker}

pub record OpenSession : Type 0 where
  pub session_id : Text
  pub public_key : Text
  pub validator : Text
  pub nonce : Text
  pub opened_at : ℕ
  pub expires_at : ℕ

pub data LogEvent : Type 0 where
  session_open : Text → Text → ℕ → LogEvent
  session_close : Text → Text → LogEvent
  session_expire : Text → LogEvent
  session_orphan_revoked : Text → LogEvent
  session_revoke_all : ℕ → LogEvent

pub record SessionGrants : Type 0 where
  pub keys : List Text
  pub open_sessions : Dict Text OpenSession
  pub nonces : NonceBook
  pub ttl : ℕ
  pub log : List LogEvent

-- Why a request is refused, with the status that `status_of` gives.
pub data Refusal : Type 0 where
  malformed : List Problem → Refusal
  key_not_accepted no_validator nonce_used not_installed no_evidence : Refusal

unfoldable pub status_of : Refusal → ℕ
status_of (malformed found) = 422
status_of key_not_accepted = 422
status_of no_validator = 403
status_of nonce_used = 403
status_of not_installed = 500
status_of no_evidence = 422

pub data Outcome : Type 0 where
  granted : OpenSession → Outcome
  refused : Refusal → Outcome

-- agent/api/auth.py `signer`: the first hotkey under which the signature verifies; the signature
-- scheme is a parameter.
unfoldable pub signer : (Text → Text → Text → Bool) → List Text → Text → Text → Option Text
signer verify [] message signature = none
signer verify (hotkey ∷ hotkeys) message signature =
    if verify hotkey message signature then some hotkey else signer verify hotkeys message signature

-- agent/hardware/attestation.py `build` returns None for a nonce that is not well formed, after
-- taking white space off; what it measures is not modelled.
unfoldable pub attests : Text → Bool
unfolding strip well_formed
attests nonce = well_formed (lower (strip nonce))

abbrev pub session_id_of : Text → Text
session_id_of nonce = take 16 nonce

-- `open` behind the checks: the key is installed, the evidence taken and the session entered.
unfoldable pub install :
    SessionOpen → Text → Text → ℕ → Bool → SessionGrants → Outcome × SessionGrants
unfolding grant revoke attests insert
install request key validator now writable g =
    let session_id = session_id_of request.nonce in
    let session : OpenSession = record {
      session_id = session_id;
      public_key = key;
      validator = validator;
      nonce = request.nonce;
      opened_at = now;
      expires_at = now + g.ttl;
    } in
    if not writable then (refused not_installed, g) else elim (grant key session_id g.keys) [
      | none ↦ (refused not_installed, g)
      | some lines ↦
          if not (attests request.nonce)
          then (refused no_evidence, record g { keys = (revoke session_id lines).1 })
          else (
            granted session,
            record g {
              keys = lines;
              open_sessions = insert session_id session g.open_sessions;
              log = g.log ++ session_open session_id validator (now + g.ttl) ∷ [];
            },
          )
    ]

-- `writable` is false where the key file cannot be written (OSError).
unfoldable pub open_session :
    (Text → Text → Text → Bool)
    → SessionOpen
    → List Text
    → ℕ
    → Bool
    → SessionGrants
    → Outcome × SessionGrants
unfolding problems canonical signer accept install
open_session verify request hotkeys now writable g =
    let (fresh, book) = accept request.nonce now g.nonces in
    let found = problems request in
    if not (is_empty found)
    then (refused (malformed found), g)
    else elim (canonical request.public_key) [
      | none ↦ (refused key_not_accepted, g)
      | some key ↦
          elim (signer verify hotkeys (grant_blob request.public_key request.nonce)
            request.signature) [
              | none ↦ (refused no_validator, g)
              | some validator ↦
                  if not fresh
                  then (refused nonce_used, record g { nonces = book })
                  else install request key validator now writable (record g { nonces = book })
            ]
    ]

pub record SessionClose : Type 0 where
  pub public_key : Text
  pub session_id : Text

unfoldable pub same_key : Option Text → Text → Bool
unfolding text_eq
same_key none key = false
same_key (some canonical_key) key = text_eq key canonical_key

unfoldable pub matches : SessionClose → Text × OpenSession → Bool
unfolding canonical same_key
matches request (sid, session) =
    (not (is_empty request.session_id) && text_eq sid request.session_id)
    || same_key (if is_empty request.public_key then none else canonical request.public_key)
        session.public_key

-- `_matching`
unfoldable pub matching : SessionClose → SessionGrants → List Text
unfolding matches keep_if contains text_eq
matching request g =
    let found = map (λ kv. kv.0) (keep_if (matches request) g.open_sessions) in
    if not (is_empty request.session_id) && not (contains request.session_id found)
    then found ++ request.session_id ∷ []
    else found

-- One turn of the loops that revoke sessions, with the event that each writes.
unfoldable pub revoke_one : (Text → LogEvent) → Text → ℕ × SessionGrants → ℕ × SessionGrants
unfolding revoke erase
revoke_one event sid (revoked, g) =
    let (removed, lines) = revoke sid g.keys in
    (
      (if removed then revoked + 1 else revoked),
      record g {
        keys = lines;
        open_sessions = erase sid g.open_sessions;
        log = g.log ++ event sid ∷ [];
      },
    )

unfoldable pub revoke_each : (Text → LogEvent) → List Text → ℕ × SessionGrants → ℕ × SessionGrants
unfolding revoke_one
revoke_each event [] r = r
revoke_each event (sid ∷ sids) r = revoke_each event sids (revoke_one event sid r)

unfoldable pub close : SessionClose → Text → SessionGrants → ℕ × SessionGrants
unfolding matching revoke_each
close request validator g =
    revoke_each (λ sid. session_close sid validator) (matching request g) (0, g)

-- `ssh_keys.active_sessions`
unfoldable pub active_sessions : List Text → List Text
unfolding after_last strip
active_sessions [] = []
active_sessions (line ∷ lines) = elim (after_last marker line) [
  | none ↦ active_sessions lines
  | some sid ↦ strip sid ∷ active_sessions lines
]

-- The second loop of `sweep`: a key line whose session is not open is revoked.
unfoldable pub revoke_orphans : List Text → List Text → ℕ × SessionGrants → ℕ × SessionGrants
unfolding revoke contains text_eq
revoke_orphans known [] r = r
revoke_orphans known (sid ∷ sids) (revoked, g) =
    let (removed, lines) = revoke sid g.keys in
    revoke_orphans known sids (
      if not (contains sid known) && removed
      then (revoked + 1, record g { keys = lines; log = g.log ++ session_orphan_revoked sid ∷ [] })
      else (revoked, g))

abbrev pub is_expired : ℕ → Text × OpenSession → Bool
is_expired now (sid, session) = leb session.expires_at now

unfoldable pub sweep : ℕ → SessionGrants → ℕ × SessionGrants
unfolding keep_if revoke_each active_sessions revoke_orphans expire
sweep now g =
    let expired = map (λ kv. kv.0) (keep_if (is_expired now) g.open_sessions) in
    let (revoked, swept) = revoke_each session_expire expired (0, g) in
    let known = map (λ kv. kv.0) swept.open_sessions in
    let (total, cleared) = revoke_orphans known (active_sessions swept.keys) (revoked, swept) in
    (total, record cleared { nonces = (expire now cleared.nonces).1 })

unfoldable pub revoke_all : SessionGrants → ℕ × SessionGrants
unfolding revoke_all_sessions
revoke_all g =
    let (removed, lines) = revoke_all_sessions g.keys in
    (
      removed,
      record g {
        keys = lines;
        open_sessions = [];
        log = if ltb 0 removed then g.log ++ session_revoke_all removed ∷ [] else g.log;
      },
    )
