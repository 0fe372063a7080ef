-- ===== src/Common/Text.antt =====
-- Texts as lists of code points, with the string methods that the program calls.
use Prim.Native.Nat.{ℕ, ◌+◌}
use Prim.Native.Char.{code}
use Prim.Native.String.{String}
use mathlib.Core.Path.{◌≡◌, refl, sym, ap, ◌∙◌}
use mathlib.Core.Logic.{◌↔◌}
use mathlib.Core.Bool.{Bool, true, false, ◌&&◌, ◌||◌}
use mathlib.Core.List.{List, [], ◌∷◌, ◌++◌, map, append_assoc, append-nil}
use mathlib.Core.Option.{Option, none, some}
use native.Mathlib.Omega.{arith}
use microtensor_compute.Common.Tests.{eqb, leb, if◌then◌else◌}
use microtensor_compute.Common.Lists.{All, is_empty, length, drop}
use microtensor_compute.Common.Classes.{Eq}

abbrev pub Text : Type 0
Text = List ℕ

abbrev pub codes : String → Text
codes String.[] = []
codes (String.◌∷◌ c s) = code c ∷ codes s

unfoldable pub text_eq : Text → Text → Bool
text_eq [] [] = true
text_eq [] (d ∷ ds) = false
text_eq (c ∷ cs) [] = false
text_eq (c ∷ cs) (d ∷ ds) = eqb c d && text_eq cs ds

pub text_eq_sound : (cs ds : Text) → text_eq cs ds ≡ true → cs ≡ ds
unfolding text_eq
text_eq_sound [] [] h = refl
text_eq_sound [] (d ∷ ds) h = cc
text_eq_sound (c ∷ cs) [] h = cc
text_eq_sound (c ∷ cs) (d ∷ ds) h = ground (arith, text_eq_sound cs ds)

pub text_eq_refl : (cs : Text) → text_eq cs cs ≡ true
unfolding text_eq
text_eq_refl [] = refl
text_eq_refl (c ∷ cs) = ground (arith, text_eq_refl cs)

pub text_eq_iff : (cs ds : Text) → (text_eq cs ds ≡ true) ↔ (cs ≡ ds)
text_eq_iff cs ds = (text_eq_sound cs ds, λ e. rw e (text_eq_refl ds))

instance abbrev pub text_instance : Eq Text
text_instance = record { same = text_eq; same_iff = text_eq_iff }

-- `str.isspace` of one character.
unfoldable pub is_space : ℕ → Bool
is_space c =
    (leb 9 c && leb c 13)
    || (leb 28 c && leb c 32)
    || eqb c 0x85
    || eqb c 0xa0
    || eqb c 0x1680
    || (leb 0x2000 c && leb c 0x200a)
    || eqb c 0x2028
    || eqb c 0x2029
    || eqb c 0x202f
    || eqb c 0x205f
    || eqb c 0x3000

-- `text.split()`, with the word that is being read.
unfoldable pub words_from : Text → Text → List Text
words_from word [] = if is_empty word then [] else word ∷ []
words_from word (c ∷ cs) = elim (is_space c) [
  | true ↦ if is_empty word then words_from [] cs else word ∷ words_from [] cs
  | false ↦ words_from (word ++ c ∷ []) cs
]

unfoldable pub split_words : Text → List Text
unfolding words_from is_space
split_words = words_from []

-- `text.endswith(suffix)`
unfoldable pub ends_with : Text → Text → Bool
unfolding text_eq
ends_with suffix [] = text_eq [] suffix
ends_with suffix (c ∷ cs) = text_eq (c ∷ cs) suffix || ends_with suffix cs

unfoldable pub starts_with : Text → Text → Bool
starts_with [] text = true
starts_with (p ∷ ps) [] = false
starts_with (p ∷ ps) (c ∷ cs) = eqb p c && starts_with ps cs

-- `part in text`
unfoldable pub occurs_in : Text → Text → Bool
unfolding starts_with
occurs_in part [] = starts_with part []
occurs_in part (c ∷ cs) = starts_with part (c ∷ cs) || occurs_in part cs

abbrev pub NoSpace : Text → Type 0
NoSpace = All (λ c. is_space c ≡ false)

pub words_from-word :
    (word text rest : Text)
    → NoSpace text
    → words_from word (text ++ rest) ≡ words_from (word ++ text) rest
unfolding words_from
words_from-word word [] rest n = ap (λ w. words_from w rest) (sym (append-nil word))
words_from-word word (c ∷ cs) rest n =
    rw (n.0, words_from)
      (words_from-word (word ++ c ∷ []) cs rest n.1
        ∙ ap (λ w. words_from w rest) (append_assoc word (c ∷ []) cs))

pub ends_with-append : (prefix suffix : Text) → ends_with suffix (prefix ++ suffix) ≡ true
unfolding ends_with
ends_with-append [] [] = text_eq_refl []
ends_with-append [] (c ∷ cs) = rw (text_eq_refl (c ∷ cs)) refl
ends_with-append (p ∷ ps) suffix = ground (arith, ends_with-append ps suffix)

-- `text.lstrip()`, `text.rstrip()`, `text.strip()` and, for ASCII letters, `text.lower()`.
unfoldable pub lstrip : Text → Text
unfolding is_space
lstrip [] = []
lstrip (c ∷ cs) = elim (is_space c) [ true ↦ lstrip cs | false ↦ c ∷ cs ]

unfoldable pub rstrip : Text → Text
unfolding is_space
rstrip [] = []
rstrip (c ∷ cs) = elim (rstrip cs) [ [] ↦ if is_space c then [] else c ∷ [] | d ∷ ds ↦ c ∷ d ∷ ds ]

unfoldable pub strip : Text → Text
unfolding lstrip rstrip
strip text = lstrip (rstrip text)

abbrev pub lower_code : ℕ → ℕ
lower_code c = if leb b'A' c && leb c b'Z' then c + 32 else c

abbrev pub lower : Text → Text
lower = map lower_code

-- What follows the last occurrence of a part that is not empty: `text[text.rfind(part) +
-- len(part):]`.
unfoldable pub after_last : Text → Text → Option Text
unfolding starts_with
after_last part [] = none
after_last part (c ∷ cs) = elim (after_last part cs) [
  | some rest ↦ some rest
  | none ↦ if starts_with part (c ∷ cs) then some (drop (length part) (c ∷ cs)) else none
]
