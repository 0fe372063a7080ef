-- ===== src/Agent/Access/Grants/Examples.antt =====
-- A session that opens, a request that repeats its nonce, and a sweep after its limit.
use microtensor_compute.Common.{◌≡◌, refl, Bool, true, [], ◌∷◌, arith}
use microtensor_compute.Common.Text.{Text, codes, text_eq, text_instance}
use microtensor_compute.Protocol.Session.{SessionOpen}
use microtensor_compute.Agent.Access.Nonces.{accept_all}
use microtensor_compute.Agent.Access.Keys.{key_line}
use microtensor_compute.Agent.Access.Grants.{
  OpenSession, SessionGrants, granted, open_session, session_open,
}
use microtensor_compute.Agent.Access.Grants.Opening.{
  Opens, open_session-Opens, open_session_no_replay,
}

-- A signature that is the hotkey itself.
abbrev signed_by : Text → Text → Text → Bool
signed_by hotkey message signature = text_eq hotkey signature

abbrev nonce : Text
nonce = codes "0123456789abcdef0123456789abcdef0123456789abcdef0123456789abcdef"

abbrev session_id : Text
session_id = codes "0123456789abcdef"

abbrev key : Text
key = codes "ssh-rsa AAAA"

abbrev validator : Text
validator = codes "5F"

abbrev request : SessionOpen
request = record { public_key = key; nonce = nonce; signature = validator }

abbrev idle : SessionGrants
idle = record {
  keys = [];
  open_sessions = [];
  nonces = record { ttl = 600; seen = [] };
  ttl = 3600;
  log = [];
}

abbrev session : OpenSession
session = record {
  session_id = session_id;
  public_key = key;
  validator = validator;
  nonce = nonce;
  opened_at = 1000;
  expires_at = 4600;
}

abbrev serving : SessionGrants
serving = record {
  keys = key_line key session_id ∷ [];
  open_sessions = (session_id, session) ∷ [];
  nonces = record { ttl = 600; seen = (nonce, 1600) ∷ [] };
  ttl = 3600;
  log = session_open session_id validator 4600 ∷ [];
}

open_session-Opens_example :
    Opens signed_by request
      (validator ∷ [])
      1000
      true
      idle
      (open_session signed_by request (validator ∷ []) 1000 true idle)
open_session-Opens_example = open_session-Opens signed_by request (validator ∷ []) 1000 true idle

opened : open_session signed_by request (validator ∷ []) 1000 true idle ≡ (granted session, serving)
unfolding open_session
opened = refl

open_session_no_replay_example : ¬ (
    open_session signed_by request (validator ∷ []) 1599 true serving ≡ (granted session, serving))
open_session_no_replay_example =
    open_session_no_replay signed_by request request (validator ∷ []) (validator ∷ []) 1000 1599
      true true idle serving serving serving session session [] refl opened
      (unfold accept_all in refl) tt (omega arith)
