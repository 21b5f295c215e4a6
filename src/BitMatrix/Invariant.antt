-- ===== src/BitMatrix/Invariant.antt =====
-- The invariant of `BitMatrix`, and what a change of one row has to do to keep it.
use native.Mathlib.Decide.{ℕ_discrete}
use nldtool.Base.{
  ℕ, ◌+◌, ◌*◌, ◌≤◌, ◌<◌, ◌≡◌, ◌≢◌, arith, Bool, ◌==◌, if◌then◌else◌, length, sym, ◌∙◌, ap,
}
use nldtool.BitMatrix.{BitMatrix, row_at, get_pivot, get_phys_row_index}
use nldtool.BitMatrix.Blocks.{col_bit, block_bit, AllWords, block_end-le}
use nldtool.BitMatrix.Pivot.{IsPivot, IsPivot-ext}

-- The columns of the row that stands at position `i` of `row_`.
abbrev pub row_bits : BitMatrix → ℕ → ℕ → Bool
row_bits m i = col_bit m.words (row_at m i).index

-- The rows of the table take different rows of `data_`, within its bounds, and every pivot is the
-- first set column of its row.
pub record IsWf (m : BitMatrix) : Type 0 where
  pub positive : 0 < m.cols64
  pub table : length m.row_table ≡ m.rows
  pub size : length m.words ≡ m.rows * m.cols64
  pub words64 : AllWords m.words
  pub start : (i : ℕ) → i < m.rows → (row_at m i).index ≡ get_phys_row_index m i * m.cols64
  pub phys_lt : (i : ℕ) → i < m.rows → get_phys_row_index m i < m.rows
  pub phys_inj :
      (i j : ℕ) → i < m.rows → j < m.rows → get_phys_row_index m i ≡ get_phys_row_index m j → i ≡ j
  pub pivots : (i : ℕ) → i < m.rows → IsPivot (64 * m.cols64) (row_bits m i) (get_pivot m i)

-- `m'` is `m` with the columns of the row at `r` replaced by `g`, its pivot recomputed, and nothing
-- else changed.
pub record IsUpdate (m m' : BitMatrix) (r : ℕ) (g : ℕ → Bool) : Type 0 where
  pub rows : m'.rows ≡ m.rows
  pub cols64 : m'.cols64 ≡ m.cols64
  pub table : length m'.row_table ≡ length m.row_table
  pub inverse : m'.row_inverse ≡ m.row_inverse
  pub index : (i : ℕ) → (row_at m' i).index ≡ (row_at m i).index
  pub other_pivots : (i : ℕ) → i ≢ r → get_pivot m' i ≡ get_pivot m i
  pub size : length m'.words ≡ length m.words
  pub words64 : AllWords m'.words
  pub bits :
      (q c : ℕ)
      → c < 64 * m.cols64
      → block_bit m.cols64 m'.words q c
        ≡ (if get_phys_row_index m r == q then g c else block_bit m.cols64 m.words q c)
  pub pivot : IsPivot (64 * m.cols64) g (get_pivot m' r)

pub row_end-le :
    (m : BitMatrix) (i : ℕ)
    → IsWf m
    → i < m.rows
    → get_phys_row_index m i * m.cols64 + m.cols64 ≤ length m.words
row_end-le m i w lt =
    rw w.size (block_end-le (get_phys_row_index m i) m.rows m.cols64 (w.phys_lt i lt))

pub row_bits-block :
    (m : BitMatrix) (i c : ℕ)
    → IsWf m
    → i < m.rows
    → row_bits m i c ≡ block_bit m.cols64 m.words (get_phys_row_index m i) c
row_bits-block m i c w lt = ap (λ s. col_bit m.words s c) (w.start i lt)

module _ {m m' : BitMatrix} {r : ℕ} {g : ℕ → Bool} (w : IsWf m) (lt : r < m.rows)
    (u : IsUpdate m m' r g) where
  phys_same : (i : ℕ) → get_phys_row_index m' i ≡ get_phys_row_index m i
  phys_same i = rw (u.index i, u.cols64)

  -- The columns of every row of the table after the change.
  pub row_bits-IsUpdate :
      (i c : ℕ)
      → i < m.rows
      → c < 64 * m.cols64
      → row_bits m' i c ≡ (if r == i then g c else row_bits m i c)
  row_bits-IsUpdate i c lt_i lt_c =
      ap (λ s. col_bit m'.words s c) (u.index i ∙ w.start i lt_i)
      ∙ ground (
        arith,
        u.bits (get_phys_row_index m i) c lt_c,
        w.phys_inj r i lt lt_i,
        row_bits-block m i c w lt_i,
        ap (get_phys_row_index m) {x = r} {y = i},
      )

  IsPivot-after : (i : ℕ) → i < m.rows → IsPivot (64 * m.cols64) (row_bits m' i) (get_pivot m' i)
  IsPivot-after i lt_i = elim (ℕ_discrete r i) [
    | yes e ↦
        rw (← e)
          (IsPivot-ext (λ c lt_c. sym (row_bits-IsUpdate r c lt lt_c ∙ ground arith)) u.pivot)
    | no ne ↦ rw (u.other_pivots i (λ e. ne (sym e))) (
        IsPivot-ext (λ c lt_c. sym (row_bits-IsUpdate i c lt_i lt_c ∙ ground arith))
          (w.pivots i lt_i))
  ]

  -- Such a change keeps the invariant.
  pub IsUpdate-IsWf : IsWf m'
  IsUpdate-IsWf = record {
    positive = rw u.cols64 w.positive;
    table = rw (u.table, u.rows) w.table;
    size = rw (u.size, u.rows, u.cols64) w.size;
    words64 = u.words64;
    start = λ i h. rw (u.index i, u.cols64) (w.start i (rw u.rows at h));
    phys_lt = λ i h. rw (phys_same i, u.rows) (w.phys_lt i (rw u.rows at h));
    phys_inj = λ i j hi hj e.
        w.phys_inj i j (rw u.rows at hi) (rw u.rows at hj) (sym (phys_same i) ∙ e ∙ phys_same j);
    pivots = λ i h. rw u.cols64 (IsPivot-after i (rw u.rows at h));
  }
