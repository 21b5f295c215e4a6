-- ===== src/BitMatrix/Getters.antt =====
-- `GetLast`, `GetBitsSet` and `GetPivotRowCount` of src/bit_matrix.cpp, where `none` stands for -1.
use nldtool.Base.{
  ℕ, zero, suc, ◌+◌, ◌*◌, ◌≤◌, ◌≡◌, refl, arith, Bool, true, false, List, [], ◌∷◌, ◌==◌,
  if◌then◌else◌, Option, none, some, leb, ltb, ◌&&◌, ap, Bool-cases, inl, inr,
}
use nldtool.Bits.{bit}
use nldtool.BitMatrix.Equation.{Increasing}
use nldtool.BitMatrix.{BitMatrix, get_bit, get_word64, get_pivot, nopivot}

-- The loop over the bits below `b` of a word, downwards.
unfoldable pub last_bit : ℕ → ℕ → Option ℕ
last_bit word zero = none
last_bit word (suc b) = let below = last_bit word b in if bit word b then some b else below

-- The loop over the words below `n`, downwards.
unfoldable pub last_from : BitMatrix → ℕ → ℕ → Option ℕ
last_from m row zero = none
last_from m row (suc n) =
    let below = last_from m row n in
    elim (last_bit (get_word64 m row n) 64) [
      | none ↦ below
      | some b ↦ if get_word64 m row n == 0 then below else some (b + n * 64)
    ]

unfoldable pub get_last : BitMatrix → ℕ → Option ℕ
get_last m row = last_from m row m.cols64

-- The columns of the row that are set, from `col` on, with `left` to go.
unfoldable pub bits_set_from : BitMatrix → ℕ → ℕ → ℕ → List ℕ
bits_set_from m row zero col = []
bits_set_from m row (suc left) col =
    let later = bits_set_from m row left (col + 1) in
    if get_bit m row col then col ∷ later else later

unfoldable pub get_bits_set : BitMatrix → ℕ → List ℕ
get_bits_set m row = bits_set_from m row (m.cols64 * 64) 0

-- The rows below `i` with a pivot.
unfoldable pub pivot_rows : BitMatrix → ℕ → ℕ
pivot_rows m zero = 0
pivot_rows m (suc i) =
    let rest = pivot_rows m i in if get_pivot m i == nopivot m then rest else rest + 1

unfoldable pub get_pivot_row_count : BitMatrix → ℕ
get_pivot_row_count m = pivot_rows m m.rows

-- Whether column `c` is in the list.
abbrev pub listed : ℕ → List ℕ → Bool
listed c [] = false
listed c (x ∷ xs) = if x == c then true else listed c xs

listed-bits_set_from :
    (m : BitMatrix) (row left col c : ℕ)
    → listed c (bits_set_from m row left col) ≡ (leb col c && ltb c (col + left) && get_bit m row c)
unfolding bits_set_from
listed-bits_set_from m row zero col c = ground arith
listed-bits_set_from m row (suc left) col c =
    let later = listed-bits_set_from m row left (col + 1) c in
    elim (Bool-cases (get_bit m row col)) [
      | inl t ↦ rw t (ground (arith, later, t, ap (get_bit m row) {x = col} {y = c}))
      | inr f ↦ rw f (ground (arith, later, f, ap (get_bit m row) {x = col} {y = c}))
    ]

Increasing-weaken :
    (lo hi n n' : ℕ) (xs : List ℕ) → lo ≤ hi → n ≡ n' → Increasing hi n xs → Increasing lo n' xs
Increasing-weaken lo hi n n' [] le e h = tt
Increasing-weaken lo hi n n' (x ∷ xs) le e (above, below, later) = (
  omega (arith, le, above),
  omega (arith, e, below),
  Increasing-weaken (suc x) (suc x) n n' xs (omega arith) e later,
)

bits_set_from-Increasing :
    (m : BitMatrix) (row left col : ℕ) → Increasing col (col + left) (bits_set_from m row left col)
unfolding bits_set_from
bits_set_from-Increasing m row zero col = tt
bits_set_from-Increasing m row (suc left) col =
    let rest = bits_set_from m row left (col + 1) in
    let later = bits_set_from-Increasing m row left (col + 1) in
    let next =
      Increasing-weaken (suc col) (col + 1) (col + 1 + left) (col + suc left) rest (omega arith)
        (omega arith) later in
    elim (Bool-cases (get_bit m row col)) [
      | inl t ↦ rw t (omega arith, omega arith, next)
      | inr f ↦ rw f (
          Increasing-weaken col (suc col) (col + suc left) (col + suc left) rest (omega arith) refl
            next)
    ]

-- `GetBitsSet` lists columns of the matrix in strictly increasing order, each once, and a number is listed just when it
-- is a column of the matrix that `GetBit` reads as set.
pub listed-get_bits_set :
    (m : BitMatrix) (row : ℕ)
    → Increasing 0 (m.cols64 * 64) (get_bits_set m row)
      × ((c : ℕ) → listed c (get_bits_set m row) ≡ (ltb c (m.cols64 * 64) && get_bit m row c))
unfolding get_bits_set
listed-get_bits_set m row = (
  Increasing-weaken 0 0 (0 + m.cols64 * 64) (m.cols64 * 64) _ (omega arith) (omega arith)
      (bits_set_from-Increasing m row (m.cols64 * 64) 0),
  λ c. ground (arith, listed-bits_set_from m row (m.cols64 * 64) 0 c),
)
