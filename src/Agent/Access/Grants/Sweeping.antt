-- ===== src/Agent/Access/Grants/Sweeping.antt =====
-- What a sweep leaves open, and which keys it takes away.
use microtensor_compute.Common.{
  ℕ, ◌≡◌, ◌⊎◌, false, List, [], ◌∷◌, Dict, map, keep_if, contains, erase, In, All, true,
}
use microtensor_compute.Common.Text.{Text, text_instance}
use microtensor_compute.Agent.Access.Keys.{is_of}
use microtensor_compute.Agent.Access.Grants.{
  OpenSession, SessionGrants, revoke_each, is_expired, session_expire,
}

abbrev pub expired_ids : ℕ → Dict Text OpenSession → List Text
expired_ids now m = map (λ kv. kv.0) (keep_if (is_expired now) m)

erase_each : List Text → Dict Text OpenSession → Dict Text OpenSession
erase_each [] m = m
erase_each (sid ∷ sids) m = erase_each sids (erase sid m)

abbrev pub IsLive : ℕ → Text × OpenSession → Type 0
IsLive now kv = is_expired now kv ≡ false

abbrev LiveOr : ℕ → List Text → Text × OpenSession → Type 0
LiveOr now sids kv = IsLive now kv ⊎ In kv.0 sids

-- No line of the key file is the session's.
abbrev pub IsGone : List Text → Text → Type 0
IsGone lines sid = All (λ line. is_of sid line ≡ false) lines

-- A session that is open, or of which no key line is left.
abbrev pub IsKnownOrGone : List Text → List Text → Text → Type 0
IsKnownOrGone known lines sid = (contains sid known ≡ true) ⊎ IsGone lines sid

abbrev pub after_expiry : ℕ → SessionGrants → SessionGrants
after_expiry now g = (revoke_each session_expire (expired_ids now g.open_sessions) (0, g)).1

abbrev pub ids_of : Dict Text OpenSession → List Text
ids_of = map (λ kv. kv.0)
