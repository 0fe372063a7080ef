-- ===== src/Agent/Access/Nonces/Replay.antt =====
-- A nonce is good once for as long as the book remembers it.
use microtensor_compute.Common.{
  ℕ, ◌+◌, ◌<◌, ◌≡◌, refl, true, false, List, [], ◌∷◌, none, some, Dict, arith, keep_if, lookup,
  lookup-insert, All,
}
use microtensor_compute.Common.Text.{Text, text_instance, text_eq_iff}
use microtensor_compute.Agent.Access.Nonces.{
  NonceBook, well_formed, is_live, expire, accept, accept_all,
}

lookup-keep_live :
    (now until : ℕ) (nonce : Text) (seen : Dict Text ℕ)
    → now < until
    → lookup nonce seen ≡ some until
    → lookup nonce (keep_if (is_live now) seen) ≡ some until
unfolding lookup keep_if
lookup-keep_live now until nonce [] h e = cc
lookup-keep_live now until nonce ((k, u) ∷ seen) h e =
    ground (arith, lookup-keep_live now until nonce seen h)

lookup-keep_absent :
    (now : ℕ) (nonce : Text) (seen : Dict Text ℕ)
    → lookup nonce seen ≡ none
    → lookup nonce (keep_if (is_live now) seen) ≡ none
unfolding lookup keep_if
lookup-keep_absent now nonce [] e = refl
lookup-keep_absent now nonce ((k, u) ∷ seen) e = ground (arith, lookup-keep_absent now nonce seen)

-- The book remembers a nonce until its moment has come, whatever else it is asked.
accept_remembers :
    (nonce other : Text) (now until : ℕ) (book : NonceBook)
    → now < until
    → lookup nonce book.seen ≡ some until
    → lookup nonce (accept other now book).1.seen ≡ some until
unfolding accept expire
accept_remembers nonce other now until book h e = ground (
  arith,
  lookup-keep_live now until nonce book.seen h e,
  lookup-insert other nonce (now + book.ttl) (keep_if (is_live now) book.seen),
  text_eq_iff other nonce,
)

accept_all_remembers :
    (nonce : Text) (until : ℕ) (others : List (Text × ℕ)) (book : NonceBook)
    → All (λ o. o.1 < until) others
    → lookup nonce book.seen ≡ some until
    → lookup nonce (accept_all others book).seen ≡ some until
unfolding accept_all
accept_all_remembers nonce until [] book h e = e
accept_all_remembers nonce until ((other, now) ∷ rest) book h e =
    accept_all_remembers nonce until rest (accept other now book).1 h.1
      (accept_remembers nonce other now until book h.0 e)

accept_records :
    (nonce : Text) (now : ℕ) (book : NonceBook)
    → (accept nonce now book).0 ≡ true
    → lookup nonce (accept nonce now book).1.seen ≡ some (now + book.ttl)
unfolding accept expire
accept_records nonce now book h = ground (
  arith,
  lookup-insert nonce nonce (now + book.ttl) (keep_if (is_live now) book.seen),
  text_eq_iff nonce nonce,
)

accept_refuses :
    (nonce : Text) (now until : ℕ) (book : NonceBook)
    → now < until
    → lookup nonce book.seen ≡ some until
    → (accept nonce now book).0 ≡ false
unfolding accept expire
accept_refuses nonce now until book h e =
    ground (arith, lookup-keep_live now until nonce book.seen h e)

-- No replay: once a nonce is accepted, it is refused at every moment before its time to live is
-- over, whatever requests came in between, accepted or not and in whatever order of their moments.
pub accept_no_replay :
    (nonce : Text) (now later : ℕ) (others : List (Text × ℕ)) (book : NonceBook)
    → (accept nonce now book).0 ≡ true
    → All (λ o. o.1 < now + book.ttl) others
    → later < now + book.ttl
    → (accept nonce later (accept_all others (accept nonce now book).1)).0 ≡ false
accept_no_replay nonce now later others book h before l =
    accept_refuses nonce later (now + book.ttl) _ l (
      accept_all_remembers nonce (now + book.ttl) others _ before (accept_records nonce now book h))

-- A well formed nonce that the book does not hold is accepted.
pub accept_fresh :
    (nonce : Text) (now : ℕ) (book : NonceBook)
    → well_formed nonce ≡ true
    → lookup nonce book.seen ≡ none
    → (accept nonce now book).0 ≡ true
unfolding accept expire
accept_fresh nonce now book w e = ground (arith, lookup-keep_absent now nonce book.seen e)
