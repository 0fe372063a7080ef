-- ===== src/Verify/Digesting.antt =====
-- The digest by its columns, with sums that wrap, is the digest by its rows, with sums that do not.
use microtensor_compute.Common.{
  ℕ, zero, suc, ◌+◌, ◌*◌, ◌%◌, ◌<◌, ◌≡◌, refl, sym, ap, ◌∙◌, List, [], ◌∷◌, map, length, arith, All,
}
use microtensor_compute.Verify.Digest.{
  word, half_word, fnv_offset, fnv_byte, fnv_from, fnv_u32, seed_state, row_from, rows_from,
  at_column, column_of, wrapped_dot, product_row, squared, squared_times, hash_byte, hash_bytes,
  hash_columns, full_rows, fold_rows, sealed, reference_digest,
}

-- Sums of products that never wrap.
unfoldable pub plain_dot : List ℕ → List ℕ → ℕ
plain_dot [] ys = 0
plain_dot (x ∷ xs) [] = 0
plain_dot (x ∷ xs) (y ∷ ys) = x * y + plain_dot xs ys

unfoldable pub plain_row : ℕ → ℕ → List (List ℕ) → List ℕ → List ℕ
unfolding plain_dot
plain_row zero column matrix row = []
plain_row (suc count) column matrix row =
    plain_dot row (column_of column matrix) % half_word ∷ plain_row count (column + 1) matrix row

unfoldable pub plain_squared_times : ℕ → ℕ → List (List ℕ) → List (List ℕ)
unfolding plain_row
plain_squared_times n zero matrix = matrix
plain_squared_times n (suc rounds) matrix =
    plain_squared_times n rounds (map (plain_row n 0 matrix) matrix)

-- The hash of a row on its own.
unfoldable pub hash_row : ℕ → List ℕ → ℕ
unfolding fnv_u32
hash_row value [] = value
hash_row value (x ∷ row) = hash_row (fnv_u32 value x) row

-- The digest as a definition by rows.
unfoldable pub digest_by_rows : ℕ → ℕ → ℕ → ℕ → ℕ
unfolding plain_squared_times hash_row seed_state rows_from fold_rows sealed
digest_by_rows seed cipher n rounds =
    let matrix = plain_squared_times n rounds (rows_from (seed_state seed cipher) n 1 n) in
    sealed seed cipher n rounds (fold_rows fnv_offset (map (hash_row fnv_offset) matrix))

step_mod :
    (sum whole product : ℕ)
    → sum % half_word ≡ whole % half_word
    → ((sum + product % word) % word) % half_word ≡ (whole + product) % half_word
step_mod sum whole product h = omega (arith, h)

wrapped_dot_lem :
    (xs ys : List ℕ) (sum whole : ℕ)
    → sum % half_word ≡ whole % half_word
    → wrapped_dot sum xs ys % half_word ≡ (whole + plain_dot xs ys) % half_word
unfolding wrapped_dot plain_dot
wrapped_dot_lem [] ys sum whole h = omega (arith, h)
wrapped_dot_lem (x ∷ xs) [] sum whole h = omega (arith, h)
wrapped_dot_lem (x ∷ xs) (y ∷ ys) sum whole h =
    wrapped_dot_lem xs ys _ (whole + x * y) (step_mod sum whole (x * y) h)
    ∙ ap (λ n. n % half_word) (omega arith)

product_row_lem :
    (count column : ℕ) (matrix : List (List ℕ)) (row : List ℕ)
    → product_row count column matrix row ≡ plain_row count column matrix row
unfolding product_row plain_row
product_row_lem zero column matrix row = refl
product_row_lem (suc count) column matrix row =
    let values = column_of column matrix in
    let same : wrapped_dot 0 row values % half_word ≡ plain_dot row values % half_word =
      wrapped_dot_lem row values 0 0 refl ∙ ap (λ n. n % half_word) (omega arith) in
    rw (product_row_lem count (column + 1) matrix row, same) refl

map_same :
    (f g : List ℕ → List ℕ) (rows : List (List ℕ))
    → ((row : List ℕ) → f row ≡ g row)
    → map f rows ≡ map g rows
map_same f g [] h = refl
map_same f g (row ∷ rows) h = rw (h row, map_same f g rows h) refl

squared_times_lem :
    (n rounds : ℕ) (matrix : List (List ℕ))
    → squared_times n rounds matrix ≡ plain_squared_times n rounds matrix
unfolding squared_times squared plain_squared_times
squared_times_lem n zero matrix = refl
squared_times_lem n (suc rounds) matrix =
    squared_times_lem n rounds (map (product_row n 0 matrix) matrix)
    ∙ ap (plain_squared_times n rounds) (
        map_same (product_row n 0 matrix) (plain_row n 0 matrix) matrix
          (product_row_lem n 0 matrix))

-- Every row has n elements, and there are so many.
abbrev AllOf : ℕ → List (List ℕ) → Type 0
AllOf n = All (λ row. length row ≡ n)

length-row_from : (state index count : ℕ) → length (row_from state index count) ≡ count
unfolding row_from
length-row_from state index zero = refl
length-row_from state index (suc count) = ap suc (length-row_from state (index + 1) count)

rows_from-AllOf : (state n index count : ℕ) → AllOf n (rows_from state n index count)
unfolding rows_from
rows_from-AllOf state n index zero = tt
rows_from-AllOf state n index (suc count) =
    (length-row_from state index n, rows_from-AllOf state n (index + n) count)

length-rows_from : (state n index count : ℕ) → length (rows_from state n index count) ≡ count
unfolding rows_from
length-rows_from state n index zero = refl
length-rows_from state n index (suc count) = ap suc (length-rows_from state n (index + n) count)

length-plain_row :
    (count column : ℕ) (matrix : List (List ℕ)) (row : List ℕ)
    → length (plain_row count column matrix row) ≡ count
unfolding plain_row
length-plain_row zero column matrix row = refl
length-plain_row (suc count) column matrix row =
    ap suc (length-plain_row count (column + 1) matrix row)

map-AllOf :
    (n : ℕ) (f : List ℕ → List ℕ) (rows : List (List ℕ))
    → ((row : List ℕ) → length (f row) ≡ n)
    → AllOf n (map f rows)
map-AllOf n f [] h = tt
map-AllOf n f (row ∷ rows) h = (h row, map-AllOf n f rows h)

length-map_rows : (f : List ℕ → List ℕ) (rows : List (List ℕ)) → length (map f rows) ≡ length rows
length-map_rows f [] = refl
length-map_rows f (row ∷ rows) = ap suc (length-map_rows f rows)

plain_squared_times-AllOf :
    (n rounds : ℕ) (matrix : List (List ℕ))
    → AllOf n matrix
    → AllOf n (plain_squared_times n rounds matrix)
      × (length (plain_squared_times n rounds matrix) ≡ length matrix)
unfolding plain_squared_times
plain_squared_times-AllOf n zero matrix a = (a, refl)
plain_squared_times-AllOf n (suc rounds) matrix a =
    let next = map (plain_row n 0 matrix) matrix in
    let rest =
      plain_squared_times-AllOf n rounds next
        (map-AllOf n (plain_row n 0 matrix) matrix (length-plain_row n 0 matrix)) in
    (rest.0, rest.1 ∙ length-map_rows (plain_row n 0 matrix) matrix)

-- The loop over the columns, for one row.
unfoldable hash_along : ℕ → ℕ → List ℕ → ℕ → ℕ
unfolding fnv_u32
hash_along zero column row value = value
hash_along (suc count) column row value =
    hash_along count (column + 1) row (fnv_u32 value (at_column column row))

hash_bytes-cons :
    (count i value row : ℕ) (values rows : List ℕ)
    → hash_bytes count i (value ∷ values) (row ∷ rows)
      ≡ fnv_from count i value row ∷ hash_bytes count i values rows
unfolding hash_bytes hash_byte fnv_from
hash_bytes-cons zero i value row values rows = refl
hash_bytes-cons (suc count) i value row values rows =
    hash_bytes-cons count (i + 1) value (fnv_byte i value row) values (hash_byte i rows values)

hash_columns-cons :
    (count column value : ℕ) (row : List ℕ) (matrix : List (List ℕ)) (rows : List ℕ)
    → hash_columns count column (row ∷ matrix) (value ∷ rows)
      ≡ hash_along count column row value ∷ hash_columns count column matrix rows
unfolding hash_columns hash_along fnv_u32
hash_columns-cons zero column value row matrix rows = refl
hash_columns-cons (suc count) column value row matrix rows =
    rw (hash_bytes-cons 4 0 (at_column column row) value (column_of column matrix) rows) (
      hash_columns-cons count (column + 1) (fnv_u32 value (at_column column row)) row matrix
        (hash_bytes 4 0 (column_of column matrix) rows))

hash_columns-nil : (count column : ℕ) → hash_columns count column [] [] ≡ []
unfolding hash_columns hash_bytes hash_byte
hash_columns-nil zero column = refl
hash_columns-nil (suc count) column = hash_columns-nil count (column + 1)

hash_along_past :
    (count column value x : ℕ) (row : List ℕ)
    → hash_along count (column + 1) (x ∷ row) value ≡ hash_along count column row value
unfolding hash_along
hash_along_past zero column value x row = refl
hash_along_past (suc count) column value x row =
    ap (λ c. hash_along count (column + 1 + 1) (x ∷ row) (fnv_u32 value c)) (at_next column)
    ∙ hash_along_past count (column + 1) (fnv_u32 value (at_column column row)) x row
  where
    at_next : (c : ℕ) → at_column (c + 1) (x ∷ row) ≡ at_column c row
    at_next c = let next : c + 1 ≡ suc c = omega arith in ap (λ k. at_column k (x ∷ row)) next

hash_along-hash_row :
    (row : List ℕ) (value : ℕ) → hash_along (length row) 0 row value ≡ hash_row value row
unfolding hash_along hash_row
hash_along-hash_row [] value = refl
hash_along-hash_row (x ∷ row) value =
    hash_along_past (length row) 0 (fnv_u32 value x) x row
    ∙ hash_along-hash_row row (fnv_u32 value x)

hash_columns_lem :
    (n : ℕ) (matrix : List (List ℕ))
    → AllOf n matrix
    → hash_columns n 0 matrix (full_rows (length matrix)) ≡ map (hash_row fnv_offset) matrix
unfolding full_rows
hash_columns_lem n [] a = hash_columns-nil n 0
hash_columns_lem n (row ∷ matrix) a =
    hash_columns-cons n 0 fnv_offset row matrix (full_rows (length matrix))
    ∙ rw (hash_columns_lem n matrix a.1) (
        ap (λ h. h ∷ map (hash_row fnv_offset) matrix)
          (ap (λ k. hash_along k 0 row fnv_offset) (sym a.0) ∙ hash_along-hash_row row fnv_offset))

-- The digest that numpy computes, over all rows at once and with sums that wrap at 64 bits, is the
-- hash of the rows one by one of a matrix whose sums never wrap.
pub reference_digest-digest_by_rows :
    (seed cipher n rounds : ℕ)
    → reference_digest seed cipher n rounds ≡ digest_by_rows seed cipher n rounds
unfolding reference_digest digest_by_rows
reference_digest-digest_by_rows seed cipher n rounds =
    let first = rows_from (seed_state seed cipher) n 1 n in
    let plain = plain_squared_times n rounds first in
    let shape = plain_squared_times-AllOf n rounds first (rows_from-AllOf _ n 1 n) in
    let height : length plain ≡ n = shape.1 ∙ length-rows_from _ n 1 n in
    ap (λ rows. sealed seed cipher n rounds (fold_rows fnv_offset rows))
      (ap (λ m. hash_columns n 0 m (full_rows n)) (squared_times_lem n rounds first)
        ∙ ap (λ k. hash_columns n 0 plain (full_rows k)) (sym height)
        ∙ hash_columns_lem n plain shape.0)

fnv_from-lt : (count i item value : ℕ) → fnv_from (suc count) i item value < word
unfolding fnv_from fnv_byte
fnv_from-lt zero i item value = omega arith
fnv_from-lt (suc count) i item value = fnv_from-lt count (i + 1) item (fnv_byte i item value)

-- Whatever the seed, the cipher and the size, the digest fits in 64 bits.
pub reference_digest-lt : (seed cipher n rounds : ℕ) → reference_digest seed cipher n rounds < word
unfolding reference_digest sealed fnv_u32
reference_digest-lt seed cipher n rounds = fnv_from-lt 3 0 rounds _
