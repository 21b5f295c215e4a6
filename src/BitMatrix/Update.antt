-- ===== src/BitMatrix/Update.antt =====
-- `XorBit`, `XorRow` and `XorRowtoRow` of src/bit_matrix.h change one row, as the sums over GF(2) that
-- they stand for, and leave its pivot right.

use nldtool.Base.{
  tri, ℕ, ◌*◌, ◌<◌, ◌≡◌, ◌≢◌, refl, arith, Bool, true, false, List, ◌==◌, if◌then◌else◌, length,
  length-set, get_or-set, ◌∙◌, ap, ap₂, xor, ltb, inl, inr,
}
use nldtool.BitMatrix.{
  BitMatrix, row_at, get_pivot, get_phys_row_index, set_pivot, compute_pivot, xor_row_to_row,
  xor_words,
}
use nldtool.BitMatrix.Blocks.{
  col_bit, block_bit, AllWords, block_bit-xor_words, length-xor_words, xor_words-AllWords,
}
use nldtool.BitMatrix.Pivot.{
  IsPivot, IsPivot-ext, pivot_loop-IsPivot, IsPivot-xor_lt, IsPivot-xor_gt,
}
use nldtool.BitMatrix.Invariant.{IsWf, IsUpdate, row_bits, row_end-le, row_bits-block}

row_at-set_pivot :
    (m : BitMatrix) (r i p : ℕ)
    → r < length m.row_table
    → row_at (set_pivot m r p) i
      ≡ (if r == i then record (row_at m r) { pivot = p } else row_at m i)
row_at-set_pivot m r i p h = get_or-set m.row_table r i (record (row_at m r) { pivot = p }) _ h

-- New words for the row at `r`, before its pivot is looked at.
module _ (m : BitMatrix) (r : ℕ) (ws : List ℕ) (g : ℕ → Bool) (w : IsWf m) (lt : r < m.rows)
    (size : length ws ≡ length m.words) (words64 : AllWords ws)
    (bits : (q c : ℕ)
      → c < 64 * m.cols64
      → block_bit m.cols64 ws q c
        ≡ (if get_phys_row_index m r == q then g c else block_bit m.cols64 m.words q c)) where
  pub update_words :
      IsPivot (64 * m.cols64) g (get_pivot m r) → IsUpdate m (record m { words = ws }) r g
  update_words p = record {
    rows = refl;
    cols64 = refl;
    table = refl;
    inverse = refl;
    index = λ i. refl;
    other_pivots = λ i ne. refl;
    size = size;
    words64 = words64;
    bits = bits;
    pivot = p;
  }

  pub update_pivot :
      (p : ℕ)
      → IsPivot (64 * m.cols64) g p
      → IsUpdate m (set_pivot (record m { words = ws }) r p) r g
  update_pivot p h = record {
    rows = refl;
    cols64 = refl;
    table = length-set m.row_table r _;
    inverse = refl;
    index = λ i. ground (arith, row_at-set_pivot m r i p in_table);
    other_pivots = λ i ne. ground (arith, row_at-set_pivot m r i p in_table);
    size = size;
    words64 = words64;
    bits = bits;
    pivot =
        let e : get_pivot (set_pivot m r p) r ≡ p =
          ground (arith, row_at-set_pivot m r r p in_table) in
        rw e h;
  }
    where
      in_table : r < length m.row_table
      in_table = rw w.table lt

  -- The row at `r` of the new words is `g`.
  new_row : (c : ℕ) → c < 64 * m.cols64 → col_bit ws (row_at m r).index c ≡ g c
  new_row c h = ap (λ s. col_bit ws s c) (w.start r lt) ∙ bits _ c h ∙ ground arith

  -- `ComputePivot` gives the pivot of the new row.
  pub recompute : IsPivot (64 * m.cols64) g (compute_pivot (record m { words = ws }) r)
  unfolding compute_pivot
  recompute = IsPivot-ext new_row (pivot_loop-IsPivot ws (row_at m r).index m.cols64 words64)

module _ (m : BitMatrix) (a b : ℕ) (w : IsWf m) (la : a < m.rows) (lb : b < m.rows)
    (ne : a ≢ b) where
  summed : List ℕ
  summed = xor_words (row_at m a).index (row_at m b).index m.words m.cols64 0

  summed_bits :
      (q c : ℕ)
      → c < 64 * m.cols64
      → block_bit m.cols64 summed q c ≡ (
          if get_phys_row_index m a == q
          then xor (row_bits m a c) (row_bits m b c)
          else block_bit m.cols64 m.words q c)
  unfolding summed
  summed_bits q c h =
      ap₂ (λ s t. block_bit m.cols64 (xor_words s t m.words m.cols64 0) q c) (w.start a la)
        (w.start b lb)
      ∙ block_bit-xor_words m.cols64 m.words (get_phys_row_index m a) (get_phys_row_index m b) q c
          (row_end-le m a w la) (λ e. ne (w.phys_inj a b la lb e)) h
      ∙ rw (row_bits-block m a c w la, row_bits-block m b c w lb)

  summed_size : length summed ≡ length m.words
  unfolding summed
  summed_size = length-xor_words _ _ m.words m.cols64 0

  summed_words : AllWords summed
  unfolding summed
  summed_words = xor_words-AllWords _ _ m.words m.cols64 0 w.words64

  -- In a well-formed matrix, for two different rows `a` and `b`, `XorRowtoRow(a, b)` adds row `b` to row `a`, gives
  -- `a` the pivot of the sum and leaves the rest of the matrix alone.
  pub xor_row_to_row-IsUpdate :
      IsUpdate m (xor_row_to_row m a b).0 a (λ c. xor (row_bits m a c) (row_bits m b c))
  unfolding xor_row_to_row summed
  xor_row_to_row-IsUpdate = elim (tri (get_pivot m b) (get_pivot m a)) [
    | inl lt ↦
        let test : ltb (get_pivot m b) (get_pivot m a) ≡ true = ground arith in
        rw test (
          update_pivot m a summed _ w la summed_size summed_words summed_bits (get_pivot m b)
            (IsPivot-xor_lt (w.pivots a la) (w.pivots b lb) lt))
    | inr (inl eq) ↦
        let test : ltb (get_pivot m b) (get_pivot m a) ≡ false = ground arith in
        let same : (get_pivot m a == get_pivot m b) ≡ true = ground arith in
        rw (test, same)
          (update_pivot m a summed _ w la summed_size summed_words summed_bits
            (compute_pivot (record m { words = summed }) a)
            (recompute m a summed _ w la summed_size summed_words summed_bits))
    | inr (inr gt) ↦
        let test : ltb (get_pivot m b) (get_pivot m a) ≡ false = ground arith in
        let same : (get_pivot m a == get_pivot m b) ≡ false = ground arith in
        rw (test, same)
          (update_words m a summed _ w la summed_size summed_words summed_bits
            (IsPivot-xor_gt (w.pivots a la) (w.pivots b lb) gt))
  ]
