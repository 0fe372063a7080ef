-- ===== src/Agent/Access/Grants/Evidence.antt =====
-- A nonce that passed the first check passes the one at attestation.
use microtensor_compute.Common.{ℕ, zero, suc, ◌≡◌, refl, true, false, [], ◌∷◌, arith, eqb, eqb_iff}
use microtensor_compute.Common.Text.{Text, is_space, lstrip, rstrip, strip, lower, lower_code}
use microtensor_compute.Protocol.Session.{well_formed_nonce}
use microtensor_compute.Agent.Access.Nonces.{is_hex, matches_hex, well_formed}
use microtensor_compute.Agent.Access.Grants.{attests}

is_hex-no_space : (c : ℕ) → is_hex c ≡ true → is_space c ≡ false
unfolding is_hex is_space
is_hex-no_space c h = ground arith

is_hex-lower : (c : ℕ) → is_hex c ≡ true → is_hex (lower_code c) ≡ true
unfolding is_hex
is_hex-lower c h = ground arith

newline_space : (d : ℕ) → eqb d 10 ≡ true → is_space d ≡ true
unfolding is_space
newline_space d e = rw ((eqb_iff d 10).0 e) refl

rstrip-matches : (n : ℕ) (cs : Text) → matches_hex n cs ≡ true → matches_hex n (rstrip cs) ≡ true
unfolding matches_hex rstrip
rstrip-matches zero [] h = refl
rstrip-matches zero (c ∷ []) h = rw (newline_space c h) refl
rstrip-matches zero (c ∷ d ∷ cs) h = cc
rstrip-matches (suc n) [] h = cc
rstrip-matches (suc n) (c ∷ cs) h = ground (arith, is_hex-no_space c, rstrip-matches n cs)

lstrip-matches : (n : ℕ) (cs : Text) → matches_hex (suc n) cs ≡ true → lstrip cs ≡ cs
unfolding matches_hex lstrip
lstrip-matches n [] h = refl
lstrip-matches n (c ∷ cs) h = ground (arith, is_hex-no_space c)

lower-matches : (n : ℕ) (cs : Text) → matches_hex n cs ≡ true → matches_hex n (lower cs) ≡ true
unfolding matches_hex
lower-matches zero [] h = refl
lower-matches zero (c ∷ []) h = ground arith
lower-matches zero (c ∷ d ∷ cs) h = cc
lower-matches (suc n) [] h = cc
lower-matches (suc n) (c ∷ cs) h = ground (arith, is_hex-lower c, lower-matches n cs)

-- Attestation never refuses a nonce that the request was let in with.
pub attests_lem : (nonce : Text) → well_formed_nonce nonce ≡ true → attests nonce ≡ true
unfolding well_formed_nonce attests strip well_formed
attests_lem nonce h =
    rw (lstrip-matches 63 (rstrip nonce) (rstrip-matches 64 nonce h))
      (lower-matches 64 (rstrip nonce) (rstrip-matches 64 nonce h))
