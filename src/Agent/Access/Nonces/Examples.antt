-- ===== src/Agent/Access/Nonces/Examples.antt =====
-- A nonce of 64 hexadecimal digits, asked for twice.
use microtensor_compute.Common.{◌≡◌, refl, true, false, [], ◌∷◌, ◌++◌, arith, lookup}
use microtensor_compute.Common.Text.{Text, codes, text_instance}
use microtensor_compute.Agent.Access.Nonces.{NonceBook, well_formed, accept, accept_all}
use microtensor_compute.Agent.Access.Nonces.Replay.{accept_no_replay, accept_fresh}

abbrev nonce : Text
nonce = codes "0123456789abcdef0123456789abcdef0123456789abcdef0123456789abcdef"

abbrev other : Text
other = codes "ffff456789abcdef0123456789abcdef0123456789abcdef0123456789abcdef"

abbrev book : NonceBook
book = record { ttl = 600; seen = [] }

well_formed-nonce : well_formed nonce ≡ true
unfolding well_formed
well_formed-nonce = refl

-- A newline at the end is let through.
well_formed_newline : well_formed (nonce ++ 10 ∷ []) ≡ true
unfolding well_formed
well_formed_newline = refl

accept_fresh_example : (accept nonce 1000 book).0 ≡ true
accept_fresh_example = accept_fresh nonce 1000 book well_formed-nonce (unfold lookup in refl)

accept_no_replay_example :
    (accept nonce 1599 (accept_all ((other, 1200) ∷ []) (accept nonce 1000 book).1)).0 ≡ false
accept_no_replay_example =
    accept_no_replay nonce 1000 1599 ((other, 1200) ∷ []) book
      (accept_fresh nonce 1000 book well_formed-nonce (unfold lookup in refl)) (omega arith, tt)
      (omega arith)
