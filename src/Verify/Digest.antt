-- ===== src/Verify/Digest.antt =====
-- The digest of validator/verify/challenge.py, which validator/verify/payloads/challenge_runner.py
-- computes on the rig by the same code. A numpy array of uint64 is a list of numbers below 2^64,
-- whose operations wrap element by element; astype(uint32) keeps the low 32 bits.
use Prim.Native.Nat.{bit_xor}
use microtensor_compute.Common.{ℕ, zero, suc, ◌+◌, ◌*◌, ◌/◌, ◌%◌, ◌^◌, List, [], ◌∷◌, map}

abbrev pub word : ℕ
word = 0x10000000000000000

abbrev pub half_word : ℕ
half_word = 0x100000000

abbrev pub golden : ℕ
golden = 0x9E3779B97F4A7C15

abbrev pub fnv_offset : ℕ
fnv_offset = 0xCBF29CE484222325

abbrev pub fnv_prime : ℕ
fnv_prime = 0x100000001B3

unfoldable pub mix64 : ℕ → ℕ
mix64 z =
    let first = bit_xor z (z / 0x40000000) * 0xBF58476D1CE4E5B9 % word in
    let second = bit_xor first (first / 0x8000000) * 0x94D049BB133111EB % word in
    bit_xor second (second / 0x80000000)

unfoldable pub seed_state : ℕ → ℕ → ℕ
unfolding mix64
seed_state seed cipher =
    (mix64 (bit_xor seed 0xA5A5A5A5A5A5A5A5) + mix64 (cipher * golden % word)) % word

-- A turn of the loops of fnv_u32 and fnv_u64: the byte of the item, from the lowest.
unfoldable pub fnv_byte : ℕ → ℕ → ℕ → ℕ
fnv_byte i item value = bit_xor value (item / 2 ^ (8 * i) % 0x100) * fnv_prime % word

unfoldable pub fnv_from : ℕ → ℕ → ℕ → ℕ → ℕ
unfolding fnv_byte
fnv_from zero i item value = value
fnv_from (suc count) i item value = fnv_from count (i + 1) item (fnv_byte i item value)

unfoldable pub fnv_u32 : ℕ → ℕ → ℕ
unfolding fnv_from
fnv_u32 value item = fnv_from 4 0 item value

unfoldable pub fnv_u64 : ℕ → ℕ → ℕ
unfolding fnv_from
fnv_u64 value item = fnv_from 8 0 item value

-- The element of the first matrix that stands at an index of `arange(1, n * n + 1)`.
unfoldable pub element : ℕ → ℕ → ℕ
unfolding mix64
element state index = mix64 ((state + index * golden % word) % word) % half_word

unfoldable pub row_from : ℕ → ℕ → ℕ → List ℕ
unfolding element
row_from state index zero = []
row_from state index (suc count) = element state index ∷ row_from state (index + 1) count

-- `reshape(n, n)`: so many rows of n elements.
unfoldable pub rows_from : ℕ → ℕ → ℕ → ℕ → List (List ℕ)
unfolding row_from
rows_from state n index zero = []
rows_from state n index (suc count) = row_from state index n ∷ rows_from state n (index + n) count

abbrev pub at_column : ℕ → List ℕ → ℕ
at_column column [] = 0
at_column zero (x ∷ row) = x
at_column (suc column) (x ∷ row) = at_column column row

-- `matrix[:, column]`
abbrev pub column_of : ℕ → List (List ℕ) → List ℕ
column_of column = map (at_column column)

-- The sum of products in uint64.
unfoldable pub wrapped_dot : ℕ → List ℕ → List ℕ → ℕ
wrapped_dot sum [] ys = sum
wrapped_dot sum (x ∷ xs) [] = sum
wrapped_dot sum (x ∷ xs) (y ∷ ys) = wrapped_dot ((sum + x * y % word) % word) xs ys

unfoldable pub product_row : ℕ → ℕ → List (List ℕ) → List ℕ → List ℕ
unfolding wrapped_dot
product_row zero column matrix row = []
product_row (suc count) column matrix row =
    wrapped_dot 0 row (column_of column matrix) % half_word
    ∷ product_row count (column + 1) matrix row

-- `(matrix.astype(uint64) @ matrix.astype(uint64)).astype(uint32)`
unfoldable pub squared : ℕ → List (List ℕ) → List (List ℕ)
unfolding product_row
squared n matrix = map (product_row n 0 matrix) matrix

unfoldable pub squared_times : ℕ → ℕ → List (List ℕ) → List (List ℕ)
unfolding squared
squared_times n zero matrix = matrix
squared_times n (suc rounds) matrix = squared_times n rounds (squared n matrix)

-- `rows ^= (values >> 8 * i) & 0xFF; rows *= prime`, for each row.
unfoldable pub hash_byte : ℕ → List ℕ → List ℕ → List ℕ
unfolding fnv_byte
hash_byte i [] values = []
hash_byte i (row ∷ rows) [] = row ∷ rows
hash_byte i (row ∷ rows) (value ∷ values) = fnv_byte i value row ∷ hash_byte i rows values

unfoldable pub hash_bytes : ℕ → ℕ → List ℕ → List ℕ → List ℕ
unfolding hash_byte
hash_bytes zero i values rows = rows
hash_bytes (suc count) i values rows = hash_bytes count (i + 1) values (hash_byte i rows values)

-- The loop over the columns.
unfoldable pub hash_columns : ℕ → ℕ → List (List ℕ) → List ℕ → List ℕ
unfolding hash_bytes
hash_columns zero column matrix rows = rows
hash_columns (suc count) column matrix rows =
    hash_columns count (column + 1) matrix (hash_bytes 4 0 (column_of column matrix) rows)

-- `np.full_rows(n, FNV_OFFSET)`
unfoldable pub full_rows : ℕ → List ℕ
full_rows zero = []
full_rows (suc n) = fnv_offset ∷ full_rows n

unfoldable pub fold_rows : ℕ → List ℕ → ℕ
unfolding fnv_u64
fold_rows digest [] = digest
fold_rows digest (row ∷ rows) = fold_rows (fnv_u64 digest row) rows

unfoldable pub sealed : ℕ → ℕ → ℕ → ℕ → ℕ → ℕ
unfolding fnv_u64 fnv_u32
sealed seed cipher n rounds digest =
    fnv_u32 (fnv_u32 (fnv_u64 (fnv_u64 digest seed) cipher) n) rounds

unfoldable pub reference_digest : ℕ → ℕ → ℕ → ℕ → ℕ
unfolding seed_state rows_from squared_times hash_columns full_rows fold_rows sealed
reference_digest seed cipher n rounds =
    let matrix = squared_times n rounds (rows_from (seed_state seed cipher) n 1 n) in
    sealed seed cipher n rounds (fold_rows fnv_offset (hash_columns n 0 matrix (full_rows n)))
