-- ===== src/Agent/Access/Nonces.antt =====
-- agent/access/nonce.py: the book of nonces that were used. Moments are natural numbers of a clock
-- tick; the lock makes each method one step.
pub mod Replay
pub mod Examples
use microtensor_compute.Common.{
  ℕ, zero, suc, ◌+◌, ◌&&◌, ◌||◌, not, Bool, true, false, List, [], ◌∷◌, Option, none, some, Dict,
  if◌then◌else◌, leb, eqb, length, keep_if, lookup, insert, has_key,
}
use microtensor_compute.Common.Text.{Text, text_instance}

abbrev pub nonce_ttl_seconds : ℕ
nonce_ttl_seconds = 600

unfoldable pub is_hex : ℕ → Bool
is_hex c = (leb b'0' c && leb c b'9') || (leb b'a' c && leb c b'f')

-- The pattern `^[0-9a-f]{n}$`. Python's `$` also matches before a newline that ends the text.
unfoldable pub matches_hex : ℕ → Text → Bool
unfolding is_hex
matches_hex zero [] = true
matches_hex zero (c ∷ []) = eqb c 10
matches_hex zero (c ∷ d ∷ cs) = false
matches_hex (suc n) [] = false
matches_hex (suc n) (c ∷ cs) = is_hex c && matches_hex n cs

unfoldable pub well_formed : Text → Bool
unfolding matches_hex
well_formed nonce = matches_hex 64 nonce

pub record NonceBook : Type 0 where
  pub ttl : ℕ
  pub seen : Dict Text ℕ

abbrev pub is_live : ℕ → Text × ℕ → Bool
is_live now (nonce, until) = not (leb until now)

-- The entries that stay; `expire` returns how many went.
unfoldable pub expire : ℕ → NonceBook → ℕ × NonceBook
unfolding keep_if
expire now book = (
  length (keep_if (λ kv. leb kv.1 now) book.seen),
  record book { seen = keep_if (is_live now) book.seen },
)

unfoldable pub accept : Text → ℕ → NonceBook → Bool × NonceBook
unfolding well_formed expire lookup insert
accept nonce now book =
    let fresh = (expire now book).1 in
    if not (well_formed nonce)
    then (false, book)
    else if has_key nonce fresh.seen
    then (false, fresh)
    else (true, record fresh { seen = insert nonce (now + fresh.ttl) fresh.seen })

-- A history of requests, each with its moment.
unfoldable pub accept_all : List (Text × ℕ) → NonceBook → NonceBook
unfolding accept
accept_all [] book = book
accept_all ((nonce, now) ∷ rest) book = accept_all rest (accept nonce now book).1
