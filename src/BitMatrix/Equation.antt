-- ===== src/BitMatrix/Equation.antt =====
-- `XorBit` and `XorRow` of src/bit_matrix.h: adding an equation, given by its columns, to a row.
use nldtool.Base.{
  tri, ℕ, suc, ◌+◌, ◌*◌, ◌≤◌, ◌<◌, ◌≡◌, refl, arith, Bool, true, false, List, [], ◌∷◌, ◌==◌,
  if◌then◌else◌, length, ◌∙◌, ap, xor, leb, inl, inr,
}
use nldtool.BitMatrix.{
  BitMatrix, row_at, get_pivot, get_phys_row_index, compute_pivot, xor_bit, xor_row, flip_bit,
  flip_bits,
}
use nldtool.BitMatrix.Blocks.{
  block_bit, AllWords, block_bit-flip_bit, length-flip_bit, length-flip_bits, flip_bits-AllWords,
}
use nldtool.BitMatrix.Pivot.{IsPivot, IsPivot-xor_lt, IsPivot-xor_gt}
use nldtool.BitMatrix.Invariant.{IsWf, IsUpdate, row_bits, row_end-le, row_bits-block}
use nldtool.BitMatrix.Update.{update_words, update_pivot, recompute}

-- The columns of an equation, as a row.
unfoldable pub eq_bits : List ℕ → ℕ → Bool
eq_bits [] c = false
eq_bits (col ∷ equation) c = xor (col == c) (eq_bits equation c)

-- Strictly increasing columns from `lo` on, all below `n`.
abbrev pub Increasing : ℕ → ℕ → List ℕ → Type 0
Increasing lo n [] = Unit {0}
Increasing lo n (col ∷ equation) = (lo ≤ col) × (col < n) × Increasing (suc col) n equation

eq_bits-below :
    (lo n : ℕ) (equation : List ℕ) (c : ℕ)
    → Increasing lo n equation
    → c < lo
    → eq_bits equation c ≡ false
unfolding eq_bits xor
eq_bits-below lo n [] c s h = refl
eq_bits-below lo n (col ∷ equation) c s h =
    ground (arith, eq_bits-below (suc col) n equation c s.2 (omega arith))

pub eq_bits-IsPivot :
    (n col : ℕ) (equation : List ℕ)
    → Increasing 0 n (col ∷ equation)
    → IsPivot n (eq_bits (col ∷ equation)) col
unfolding eq_bits xor
eq_bits-IsPivot n col equation s = record {
  bounded = omega arith;
  below = λ c lt. ground (arith, eq_bits-below (suc col) n equation c s.2 (omega arith));
  there = λ lt. ground (arith, eq_bits-below (suc col) n equation col s.2 (omega arith));
}

block_bit-flip_bits :
    (n : ℕ) (equation ws : List ℕ) (lo p q c : ℕ)
    → p * n + n ≤ length ws
    → Increasing lo (64 * n) equation
    → c < 64 * n
    → block_bit n (flip_bits ws (p * n) equation) q c
      ≡ (if p == q then xor (block_bit n ws q c) (eq_bits equation c) else block_bit n ws q c)
unfolding flip_bits eq_bits xor
block_bit-flip_bits n [] ws lo p q c h s lt = ground arith
block_bit-flip_bits n (col ∷ equation) ws lo p q c h s lt = ground (
  arith,
  block_bit-flip_bits n equation (flip_bit ws (p * n) col) (suc col) p q c (rw length-flip_bit h)
      s.2 lt,
  block_bit-flip_bit n ws p q col c h s.1 lt,
)

module _ (m : BitMatrix) (r col : ℕ) (rest : List ℕ) (w : IsWf m) (lt : r < m.rows)
    (s : Increasing 0 (64 * m.cols64) (col ∷ rest)) where
  equation : List ℕ
  equation = col ∷ rest

  flipped : List ℕ
  flipped = flip_bits m.words (row_at m r).index equation

  flipped_bits :
      (q c : ℕ)
      → c < 64 * m.cols64
      → block_bit m.cols64 flipped q c ≡ (
          if get_phys_row_index m r == q
          then xor (row_bits m r c) (eq_bits equation c)
          else block_bit m.cols64 m.words q c)
  unfolding flipped equation
  flipped_bits q c h =
      ap (λ t. block_bit m.cols64 (flip_bits m.words t (col ∷ rest)) q c) (w.start r lt)
      ∙ block_bit-flip_bits m.cols64 (col ∷ rest) m.words 0 (get_phys_row_index m r) q c
          (row_end-le m r w lt) s h
      ∙ ground (
        arith,
        row_bits-block m r c w lt,
        ap (λ t. block_bit m.cols64 m.words t c) {x = get_phys_row_index m r} {y = q},
      )

  flipped_size : length flipped ≡ length m.words
  unfolding flipped
  flipped_size = length-flip_bits m.words _ equation

  flipped_words : AllWords flipped
  unfolding flipped
  flipped_words = flip_bits-AllWords m.words _ equation w.words64

  -- In a well-formed matrix, for a not empty equation of strictly increasing columns of the matrix, `XorRow` adds the
  -- equation to the row, gives it the pivot of the sum and leaves the rest of the matrix alone.
  pub xor_row-IsUpdate :
      IsUpdate m (xor_row m r (col ∷ rest)).0 r (λ c. xor (row_bits m r c) (eq_bits (col ∷ rest) c))
  unfolding xor_row flipped equation
  xor_row-IsUpdate = elim (tri col (get_pivot m r)) [
    | inl lt' ↦
        let test : leb col (get_pivot m r) ≡ true = ground arith in
        let same : (get_pivot m r == col) ≡ false = ground arith in
        rw (test, same)
          (update_pivot m r flipped _ w lt flipped_size flipped_words flipped_bits col
            (IsPivot-xor_lt (w.pivots r lt) (eq_bits-IsPivot (64 * m.cols64) col rest s) lt'))
    | inr (inl eq) ↦
        let test : leb col (get_pivot m r) ≡ true = ground arith in
        let same : (get_pivot m r == col) ≡ true = ground arith in
        rw (test, same)
          (update_pivot m r flipped _ w lt flipped_size flipped_words flipped_bits
            (compute_pivot (record m { words = flipped }) r)
            (recompute m r flipped _ w lt flipped_size flipped_words flipped_bits))
    | inr (inr gt) ↦
        let test : leb col (get_pivot m r) ≡ false = ground arith in
        rw test (
          update_words m r flipped _ w lt flipped_size flipped_words flipped_bits
            (IsPivot-xor_gt (w.pivots r lt) (eq_bits-IsPivot (64 * m.cols64) col rest s) gt))
  ]

-- `XorBit(row, col)` is `XorRow` of the equation with that one column.
pub xor_bit-eq-xor_row : (m : BitMatrix) (r col : ℕ) → xor_bit m r col ≡ xor_row m r (col ∷ [])
unfolding xor_bit xor_row flip_bits
xor_bit-eq-xor_row m r col = ground arith
