-- ===== src/Protocol/Session.antt =====
-- protocol/session.py: the request that opens a session, and what makes it well formed. Texts are
-- code points.
use microtensor_compute.Common.{
  ◌&&◌, not, Bool, true, false, List, [], ◌∷◌, ◌++◌, if◌then◌else◌, eqb, all_of, is_empty, any_of,
}
use microtensor_compute.Common.Text.{Text, text_instance, strip, lower, occurs_in}
use microtensor_compute.Agent.Access.Nonces.{matches_hex}
use microtensor_compute.Agent.Access.Keys.{is_base64, key_types}

pub record SessionOpen : Type 0 where
  pub public_key : Text
  pub nonce : Text
  pub signature : Text

-- The request as it is read from JSON fields that are texts, "" for one that is missing.
unfoldable pub session_open_from : Text → Text → Text → SessionOpen
unfolding strip
session_open_from public_key nonce signature = record {
  public_key = strip public_key;
  nonce = lower (strip nonce);
  signature = strip signature;
}

-- PUBLIC_KEY_PATTERN behind the key type and its space: `[A-Za-z0-9+/]+=*( [^\r\n]*)?$`. A text
-- without a newline is matched to its very end.
unfoldable pub key_comment : Text → Bool
unfolding all_of
key_comment [] = true
key_comment (c ∷ cs) = eqb c 32 && all_of (λ d. not (eqb d 10) && not (eqb d 13)) cs

unfoldable pub key_padding : Text → Bool
unfolding key_comment
key_padding [] = true
key_padding (c ∷ cs) =
    let comment = key_comment (c ∷ cs) in
    let rest = key_padding cs in if eqb c b'=' then rest else comment

unfoldable pub key_rest : Bool → Text → Bool
unfolding is_base64 key_padding
key_rest seen [] = seen
key_rest seen (c ∷ cs) =
    let rest = key_rest true cs in
    let ended = seen && key_padding (c ∷ cs) in if is_base64 c then rest else ended

unfoldable pub key_after : Text → Text → Bool
unfolding key_rest
key_after [] [] = false
key_after [] (c ∷ cs) = eqb c 32 && key_rest false cs
key_after (k ∷ ks) [] = false
key_after (k ∷ ks) (c ∷ cs) = eqb k c && key_after ks cs

unfoldable pub well_formed_public_key : Text → Bool
unfolding strip occurs_in any_of key_after
well_formed_public_key public_key =
    let text = strip public_key in
    not (occurs_in (10 ∷ []) text) && any_of (λ kind. key_after kind text) key_types

unfoldable pub well_formed_nonce : Text → Bool
unfolding matches_hex
well_formed_nonce nonce = matches_hex 64 nonce

pub data Problem : Type 0 where
  bad_public_key bad_nonce no_signature : Problem

unfoldable pub problems : SessionOpen → List Problem
unfolding well_formed_public_key well_formed_nonce
problems r =
    (if well_formed_public_key r.public_key then [] else bad_public_key ∷ [])
    ++ (if well_formed_nonce r.nonce then [] else bad_nonce ∷ [])
    ++ (if is_empty r.signature then no_signature ∷ [] else [])

unfoldable pub grant_blob : Text → Text → Text
grant_blob public_key nonce = public_key ++ 10 ∷ nonce
