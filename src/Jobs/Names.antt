-- ===== src/Jobs/Names.antt =====
-- The patterns of validator/work/containers.py and validator/storage/volumes.py. Python's `$` also
-- matches before a newline that ends the text, which none of the patterns' classes holds, so each
-- pattern is a test of the text without one newline at its end.
use microtensor_compute.Common.{
  ℕ, ◌+◌, ◌*◌, ◌-◌, ◌/◌, ◌%◌, suc, zero, ◌&&◌, ◌||◌, not, Bool, true, false, [], ◌∷◌, Option, none,
  some, if◌then◌else◌, eqb, leb, ltb, length, drop, all_of, is_empty,
}
use microtensor_compute.Common.Text.{Text, codes, starts_with, strip, lstrip, rstrip}

abbrev pub is_digit : ℕ → Bool
is_digit c = leb b'0' c && leb c b'9'

abbrev pub is_lower : ℕ → Bool
is_lower c = leb b'a' c && leb c b'z'

abbrev pub is_letter : ℕ → Bool
is_letter c = is_lower c || (leb b'A' c && leb c b'Z')

abbrev pub is_alnum : ℕ → Bool
is_alnum c = is_letter c || is_digit c

-- [A-Za-z0-9_.-]
abbrev pub is_name_char : ℕ → Bool
is_name_char c = is_alnum c || eqb c b'_' || eqb c b'.' || eqb c b'-'

unfoldable pub chomp : Text → Text
chomp [] = []
chomp (c ∷ cs) = let rest = chomp cs in if is_empty cs && eqb c 10 then [] else c ∷ rest

-- A first character of one class, then at most so many of another.
unfoldable pub is_word : (ℕ → Bool) → (ℕ → Bool) → ℕ → Text → Bool
is_word first other most [] = false
is_word first other most (c ∷ cs) = first c && all_of other cs && leb (length cs) most

-- ^[A-Za-z0-9][A-Za-z0-9_.-]{0,most}$
unfoldable pub is_name : ℕ → Text → Bool
unfolding chomp is_word all_of
is_name most text = is_word is_alnum is_name_char most (chomp text)

-- JOB_ID
abbrev pub is_job_id : Text → Bool
is_job_id = is_name 60

-- ENV_KEY: ^[A-Za-z_][A-Za-z0-9_]{0,63}$
unfoldable pub is_env_key : Text → Bool
unfolding chomp is_word all_of
is_env_key text =
    is_word (λ c. is_letter c || eqb c b'_') (λ c. is_alnum c || eqb c b'_') 63 (chomp text)

-- A GPU's uuid: ^GPU-[0-9a-f-]{36}$
unfoldable pub is_uuid : Text → Bool
unfolding chomp all_of starts_with
is_uuid text =
    starts_with (codes "GPU-") text
    && all_of (λ c. is_digit c || (leb b'a' c && leb c b'f') || eqb c b'-') (drop 4 (chomp text))
    && eqb (length (drop 4 (chomp text))) 36

-- ^[0-9]+[kmgKMG]?$, with whether a digit was read.
unfoldable pub is_size_from : Bool → Text → Bool
is_size_from digits [] = digits
is_size_from digits (c ∷ cs) =
    let rest = is_size_from true cs in
    if is_digit c
    then rest
    else digits
      && is_empty cs
      && (eqb c b'k' || eqb c b'm' || eqb c b'g' || eqb c b'K' || eqb c b'M' || eqb c b'G')

unfoldable pub is_size : Text → Bool
unfolding is_size_from chomp
is_size text = is_size_from false (chomp text)

-- The text before the first of a character and the text after it.
abbrev put_before : ℕ → Option (Text × Text) → Option (Text × Text)
put_before c none = none
put_before c (some parts) = some (c ∷ parts.0, parts.1)

unfoldable pub split_at : ℕ → Text → Option (Text × Text)
split_at mark [] = none
split_at mark (c ∷ cs) = if eqb c mark then some ([], cs) else put_before c (split_at mark cs)

-- The value of a run of decimal digits.
unfoldable pub number_from : ℕ → Text → ℕ
number_from value [] = value
number_from value (c ∷ cs) = number_from (value * 10 + (c - b'0')) cs

-- `int(text)` of one or more ASCII digits.
unfoldable pub digits_value : Text → Option ℕ
unfolding all_of number_from
digits_value text =
    if is_empty text || not (all_of is_digit text) then none else some (number_from 0 text)

-- parse_range's pattern: ^\s*(\d+)\s*-\s*(\d+)\s*$
abbrev pub both : Option ℕ → Option ℕ → Option (ℕ × ℕ)
both (some low) (some high) = some (low, high)
both _ _ = none

abbrev pub halves : Option (Text × Text) → Option (ℕ × ℕ)
halves none = none
halves (some parts) = both (digits_value (rstrip parts.0)) (digits_value (lstrip parts.1))

unfoldable pub range_of : Text → Option (ℕ × ℕ)
unfolding split_at digits_value strip lstrip rstrip
range_of text = halves (split_at b'-' (strip text))

-- `str(n)`: the digits of a number, on as much fuel as the number has digits at most.
unfoldable pub decimal_from : ℕ → ℕ → Text → Text
decimal_from zero n seen = seen
decimal_from (suc fuel) n seen =
    let rest = decimal_from fuel (n / 10) ((b'0' + n % 10) ∷ seen) in
    if ltb n 10 then (b'0' + n) ∷ seen else rest

unfoldable pub decimal : ℕ → Text
unfolding decimal_from
decimal n = decimal_from (suc n) n []
