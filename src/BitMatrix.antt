-- ===== src/BitMatrix.antt =====
-- src/bit_matrix.h, src/bit_matrix.cpp and src/row.h: a matrix over GF(2), packed into 64-bit words.
-- `words` is `data_`, `row_table` is `row_` and `row_inverse` is `rowinv_`. Row and column numbers are
-- never negative; a pivot lies between 0 and NOPIVOT.
pub mod Blocks
pub mod Pivot
pub mod Invariant
pub mod Update
pub mod Equation
pub mod Sort
pub mod Permute
pub mod Getters
pub mod UpperBound
pub mod Initial
use nldtool.Base.{
  ℕ, zero, suc, ◌+◌, ◌-◌, ◌*◌, ◌/◌, ◌%◌, ◌^◌, Bool, true, false, List, [], ◌∷◌, ◌++◌, bit_and,
  bit_or, bit_xor, ltb, leb, ◌==◌, if◌then◌else◌, get_or, set, replicate,
}
use nldtool.Bits.{bit, shr, shl}
use nldtool.Utils.{least_significant_set_bitmask}

pub record Row : Type 0 where
  pub index : ℕ
  pub pivot : ℕ

pub record BitMatrix : Type 0 where
  pub rows : ℕ
  pub cols64 : ℕ
  pub words : List ℕ
  pub row_table : List Row
  pub row_inverse : List ℕ

-- The member constant NOPIVOT.
abbrev pub nopivot : BitMatrix → ℕ
nopivot m = 64 * m.cols64

abbrev no_row : Row
no_row = record { index = 0; pivot = 0 }

abbrev pub row_at : BitMatrix → ℕ → Row
row_at m row = get_or m.row_table row no_row

-- `data_[i]`.
abbrev pub word_at : List ℕ → ℕ → ℕ
word_at ws i = get_or ws i 0

-- LogTable256; the entry for 0 is the `char` -1, converted to `uint64_t`.
abbrev log_table_256 : List ℕ
log_table_256 =
    (2 ^ 64 - 1) ∷ 0 ∷ replicate 2 1
    ++ replicate 4 2
    ++ replicate 8 3
    ++ replicate 16 4
    ++ replicate 32 5
    ++ replicate 64 6
    ++ replicate 128 7

-- One rung of the ladder in `ComputePivot`, for the 16 bits `tt` that start at `base`.
log_rung : ℕ → ℕ → ℕ
log_rung base tt =
    if bit_and tt 0xff == 0
    then base + 8 + get_or log_table_256 (shr tt 8) 0
    else base + get_or log_table_256 tt 0

-- The logarithm of a mask with one bit set; `lg` keeps its initial 0 where the source asserts.
unfoldable pub log_of_mask : ℕ → ℕ
unfolding log_rung
log_of_mask m =
    if bit_and m 0xffff == 0
    then (if bit_and (shr m 16) 0xffff == 0
        then (if bit_and (shr m 32) 0xffff == 0
            then (if bit_and (shr m 48) 0xffff == 0 then 0 else log_rung 48 (shr m 48))
            else log_rung 32 (shr m 32))
        else log_rung 16 (shr m 16))
    else log_rung 0 m

-- The loop of `ComputePivot(row, cols64)` at word `n`, with `left` words to go. `start` is the
-- position of the row in `data_`.
unfoldable pub pivot_loop : List ℕ → ℕ → ℕ → ℕ → ℕ → ℕ
pivot_loop ws start none_found zero n = none_found
pivot_loop ws start none_found (suc left) n =
    let rest = pivot_loop ws start none_found left (n + 1) in
    let word = word_at ws (start + n) in
    if word == 0 then rest else log_of_mask (least_significant_set_bitmask word) + n * 64

-- `ComputePivot(row)`, the new value of `row_[row].pivot`.
unfoldable pub compute_pivot : BitMatrix → ℕ → ℕ
unfolding pivot_loop
compute_pivot m row = pivot_loop m.words (row_at m row).index (nopivot m) m.cols64 0

abbrev pub set_pivot : BitMatrix → ℕ → ℕ → BitMatrix
set_pivot m row p = record m {
  row_table = set m.row_table row (record (row_at m row) { pivot = p });
}

-- `BitMatrix(rows, cols)`, with `Init` at its end.
row_table_from : ℕ → ℕ → ℕ → ℕ → List Row
row_table_from zero i c none_found = []
row_table_from (suc left) i c none_found =
    record { index = i * c; pivot = none_found } ∷ row_table_from left (i + 1) c none_found

range_from : ℕ → ℕ → List ℕ
range_from zero i = []
range_from (suc left) i = i ∷ range_from left (i + 1)

unfoldable pub bit_matrix : ℕ → ℕ → BitMatrix
unfolding row_table_from range_from
bit_matrix rows cols =
    let c = cols / 64 + (if cols % 64 == 0 then 0 else 1) in
    record {
      rows = rows;
      cols64 = c;
      words = replicate (rows * c) 0;
      row_table = row_table_from rows 0 c (64 * c);
      row_inverse = range_from rows 0;
    }

-- `GetWord64`, `GetBit`, `GetPivot`, `IsZeroRow`, `GetPhysRowIndex` and `GetVirtRowIndex`.
unfoldable pub get_word64 : BitMatrix → ℕ → ℕ → ℕ
get_word64 m row col64 = word_at m.words ((row_at m row).index + col64)

unfoldable pub get_bit : BitMatrix → ℕ → ℕ → Bool
get_bit m row col = bit (word_at m.words ((row_at m row).index + col / 64)) (col % 64)

abbrev pub get_pivot : BitMatrix → ℕ → ℕ
get_pivot m row = (row_at m row).pivot

abbrev pub is_zero_row : BitMatrix → ℕ → Bool
is_zero_row m row = get_pivot m row == nopivot m

abbrev pub get_phys_row_index : BitMatrix → ℕ → ℕ
get_phys_row_index m row = (row_at m row).index / m.cols64

abbrev pub get_virt_row_index : BitMatrix → ℕ → ℕ
get_virt_row_index m row = get_or m.row_inverse row 0

-- `data_[start + col / 64] ^= 1 << (col % 64)`.
unfoldable pub flip_bit : List ℕ → ℕ → ℕ → List ℕ
flip_bit ws start col =
    let i = start + col / 64 in set ws i (bit_xor (word_at ws i) (shl 1 (col % 64)))

-- `SetBit(row, col)`, with its result.
unfoldable pub set_bit : BitMatrix → ℕ → ℕ → BitMatrix × Bool
set_bit m row col =
    let i = (row_at m row).index + col / 64 in
    let m1 = record m { words = set m.words i (bit_or (word_at m.words i) (shl 1 (col % 64))) } in
    if ltb col (get_pivot m row) then (set_pivot m1 row col, true) else (m1, false)

-- `XorBit(row, col)`.
unfoldable pub xor_bit : BitMatrix → ℕ → ℕ → BitMatrix × Bool
unfolding flip_bit
xor_bit m row col =
    let m1 = record m { words = flip_bit m.words (row_at m row).index col } in
    if ltb col (get_pivot m row)
    then (set_pivot m1 row col, true)
    else if col == get_pivot m row
    then (set_pivot m1 row (compute_pivot m1 row), true)
    else (m1, false)

unfoldable pub flip_bits : List ℕ → ℕ → List ℕ → List ℕ
flip_bits ws start [] = ws
flip_bits ws start (col ∷ equation) = flip_bits (flip_bit ws start col) start equation

-- `XorRow(row, equation)`. An equation is never empty; `equation[0]` of an empty one is read as 0.
unfoldable pub xor_row : BitMatrix → ℕ → List ℕ → BitMatrix × Bool
xor_row m row equation =
    let first = get_or equation 0 0 in
    let old = get_pivot m row in
    let m1 = record m { words = flip_bits m.words (row_at m row).index equation } in
    if leb first old
    then (if old == first
        then (set_pivot m1 row (compute_pivot m1 row), true)
        else (set_pivot m1 row first, true))
    else (m1, false)

-- The loop of `XorRowtoRow` at word `i`, with `left` words to go.
unfoldable pub xor_words : ℕ → ℕ → List ℕ → ℕ → ℕ → List ℕ
xor_words a b ws zero i = ws
xor_words a b ws (suc left) i =
    xor_words a b (set ws (a + i) (bit_xor (word_at ws (a + i)) (word_at ws (b + i)))) left (i + 1)

-- `XorRowtoRow(a, b)`.
unfoldable pub xor_row_to_row : BitMatrix → ℕ → ℕ → BitMatrix × Bool
xor_row_to_row m a b =
    let m1 = record m {
      words = xor_words (row_at m a).index (row_at m b).index m.words m.cols64 0;
    } in
    let pa = get_pivot m a in
    let pb = get_pivot m b in
    if ltb pb pa
    then (set_pivot m1 a pb, true)
    else if pa == pb
    then (set_pivot m1 a (compute_pivot m1 a), true)
    else (m1, false)

-- `std::upper_bound` over `row_`, as a binary search: from `first` on, `count` entries are left. The
-- fuel is the number of entries, and each round leaves fewer.
upper_bound_loop : List Row → ℕ → ℕ → ℕ → ℕ → ℕ
upper_bound_loop table col zero first count = first
upper_bound_loop table col (suc fuel) first count =
    let step = count / 2 in
    let middle = first + step in
    let left = ltb col (get_or table middle no_row).pivot in
    let more =
      upper_bound_loop table col fuel (if left then first else middle + 1)
        (if left then step else count - (step + 1)) in
    if count == 0 then first else more

-- `GetPivotUpperBound(col)`: the number of rows before the first pivot above `col`.
unfoldable pub get_pivot_upper_bound : BitMatrix → ℕ → ℕ
unfolding upper_bound_loop
get_pivot_upper_bound m col = upper_bound_loop m.row_table col m.rows 0 m.rows
