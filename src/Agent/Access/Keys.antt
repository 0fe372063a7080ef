-- ===== src/Agent/Access/Keys.antt =====
-- agent/access/ssh_keys.py: the authorized_keys file as its lines. A file that is not there is the
-- empty list; `_lock` makes each function one step.
pub mod Canonical
pub mod Revoking
pub mod Examples
use microtensor_compute.Common.{
  ℕ, ◌-◌, ◌&&◌, ◌||◌, not, Bool, true, false, List, [], ◌∷◌, ◌++◌, Option, none, some,
  if◌then◌else◌, leb, eqb, ltb, length, keep_if, all_of, contains, is_empty,
}
use microtensor_compute.Common.Text.{
  Text, codes, text_instance, text_eq, split_words, ends_with, occurs_in, starts_with,
}

abbrev pub marker : Text
marker = codes "mt-session:"

abbrev pub key_types : List Text
key_types =
    codes "ssh-ed25519"
    ∷ codes "ecdsa-sha2-nistp256"
    ∷ codes "ecdsa-sha2-nistp384"
    ∷ codes "ssh-rsa"
    ∷ []

unfoldable pub is_base64 : ℕ → Bool
is_base64 c =
    (leb b'A' c && leb c b'Z')
    || (leb b'a' c && leb c b'z')
    || (leb b'0' c && leb c b'9')
    || eqb c b'+'
    || eqb c b'/'

-- `[A-Za-z0-9+/]+=*` to the end; `seen` says that a character of the first part was read.
unfoldable pub key_body : Bool → Text → Bool
unfolding is_base64 all_of
key_body seen [] = seen
key_body seen (c ∷ cs) =
    let padding = seen && all_of (λ d. eqb d b'=') (c ∷ cs) in
    let rest = key_body true cs in if is_base64 c then rest else padding

-- The first two words, if the first is a key type and the second is a key body. The pattern
-- PUBLIC_KEY is matched against the two words with one space between them.
unfoldable pub canonical_words : List Text → Option Text
unfolding contains text_eq key_body
canonical_words [] = none
canonical_words (kind ∷ []) = none
canonical_words (kind ∷ body ∷ more) =
    if contains kind key_types && key_body false body then some (kind ++ 32 ∷ body) else none

-- `split` with no argument drops the white space at both ends, so the `strip` before it is idle.
unfoldable pub canonical : Text → Option Text
unfolding canonical_words split_words
canonical public_key = canonical_words (split_words public_key)

abbrev pub tag : Text → Text
tag session_id = marker ++ session_id

abbrev pub is_of : Text → Text → Bool
is_of session_id line = ends_with (tag session_id) line

abbrev pub others : Text → List Text → List Text
others session_id lines = keep_if (λ line. not (is_of session_id line)) lines

abbrev pub key_line : Text → Text → Text
key_line key session_id = key ++ 32 ∷ tag session_id

-- none: ValueError, the key is not accepted and the file is not touched.
unfoldable pub grant : Text → Text → List Text → Option (List Text)
unfolding canonical ends_with keep_if
grant public_key session_id lines = elim (canonical public_key) [
  | none ↦ none
  | some key ↦ some (others session_id lines ++ key_line key session_id ∷ [])
]

-- The file is rewritten only if a line goes.
unfoldable pub revoke : Text → List Text → Bool × List Text
unfolding ends_with keep_if
revoke session_id lines =
    if eqb (length (others session_id lines)) (length lines)
    then (false, lines)
    else (true, others session_id lines)

unfoldable pub revoke_all_sessions : List Text → ℕ × List Text
unfolding occurs_in keep_if
revoke_all_sessions lines =
    let kept = keep_if (λ line. not (occurs_in marker line)) lines in
    let removed = length lines - length kept in (removed, if ltb 0 removed then kept else lines)
