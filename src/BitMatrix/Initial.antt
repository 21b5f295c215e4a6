-- ===== src/BitMatrix/Initial.antt =====
-- The constructor of `BitMatrix` in src/bit_matrix.cpp establishes the invariant.
use native.Mathlib.Nat.{div-eq_of_eq-mul_left}
use nldtool.Base.{
  ℕ, zero, suc, ◌+◌, ◌*◌, ◌/◌, ◌%◌, ◌≤◌, ◌<◌, ◌≡◌, refl, arith, length, get_or, ap, sym, ◌∙◌,
  length-replicate, replicate, if◌then◌else◌, ◌==◌,
}
use nldtool.Bits.{bit-zero}
use nldtool.BitMatrix.{Row, bit_matrix, row_table_from, row_at, get_phys_row_index, word_at}
use nldtool.BitMatrix.Blocks.{col_bit}
use nldtool.BitMatrix.Invariant.{IsWf}

-- ⌈cols / 64⌉.
abbrev words_for : ℕ → ℕ
words_for cols = cols / 64 + (if cols % 64 == 0 then 0 else 1)

pub words_for-bounds : (cols : ℕ) → (cols ≤ 64 * words_for cols) × (64 * words_for cols < cols + 64)
words_for-bounds cols = ground arith

length-row_table_from : (left i c p : ℕ) → length (row_table_from left i c p) ≡ left
unfolding row_table_from
length-row_table_from zero i c p = refl
length-row_table_from (suc left) i c p = ap suc (length-row_table_from left (i + 1) c p)

get_or-row_table_from :
    (left i c p k : ℕ) (d : Row)
    → k < left
    → get_or (row_table_from left i c p) k d ≡ record { index = (i + k) * c; pivot = p }
unfolding row_table_from
get_or-row_table_from zero i c p k d lt = absurd (omega arith)
get_or-row_table_from (suc left) i c p zero d lt = ground arith
get_or-row_table_from (suc left) i c p (suc k) d lt =
    get_or-row_table_from left (i + 1) c p k d (omega arith) ∙ ground arith

word_at-replicate : (n i : ℕ) → word_at (replicate n 0) i ≡ 0
word_at-replicate zero i = refl
word_at-replicate (suc n) zero = refl
word_at-replicate (suc n) (suc i) = word_at-replicate n i

module _ (rows cols : ℕ) (pos : 0 < cols) where
  row_at-bit_matrix :
      (i : ℕ)
      → i < rows
      → row_at (bit_matrix rows cols) i
        ≡ record { index = i * words_for cols; pivot = 64 * words_for cols }
  unfolding bit_matrix
  row_at-bit_matrix i lt = get_or-row_table_from rows 0 (words_for cols) _ i _ lt ∙ ground arith

  phys-bit_matrix : (i : ℕ) → i < rows → get_phys_row_index (bit_matrix rows cols) i ≡ i
  unfolding bit_matrix
  phys-bit_matrix i lt =
      ap (λ (r : Row). r.index / words_for cols) (row_at-bit_matrix i lt)
      ∙ div-eq_of_eq-mul_left (ground arith) refl

  -- A new matrix with at least one column satisfies the invariant.
  pub bit_matrix-IsWf : IsWf (bit_matrix rows cols)
  unfolding bit_matrix col_bit
  bit_matrix-IsWf = record {
    positive = ground arith;
    table = length-row_table_from rows 0 _ _;
    size = length-replicate (rows * words_for cols) 0;
    words64 = λ i. rw word_at-replicate (omega arith);
    start = λ i lt.
        ap (λ (r : Row). r.index) (row_at-bit_matrix i lt)
        ∙ sym (ap (λ k. k * words_for cols) (phys-bit_matrix i lt));
    phys_lt = λ i lt. rw (phys-bit_matrix i lt) lt;
    phys_inj = λ i j li lj e. sym (phys-bit_matrix i li) ∙ e ∙ phys-bit_matrix j lj;
    pivots = λ i lt.
        let e = ap (λ (r : Row). r.pivot) (row_at-bit_matrix i lt) in
        record {
          bounded = omega arith;
          below = λ c _. rw word_at-replicate (bit-zero (c % 64));
          there = λ h. absurd (omega arith);
        };
  }
