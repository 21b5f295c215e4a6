-- ===== src/BitMatrix/UpperBound.antt =====
-- `GetPivotUpperBound` of src/bit_matrix.h stays within `row_`, and on sorted pivots it is the number of
-- rows up to the column.
use nldtool.Base.{
  ℕ, zero, suc, ◌+◌, ◌-◌, ◌/◌, ◌≤◌, ◌<◌, ◌≡◌, arith, List, ltb, ◌==◌, Bool-cases, inl, inr,
}
use nldtool.BitMatrix.{BitMatrix, Row, get_pivot, upper_bound_loop, get_pivot_upper_bound}

upper_bound_loop-le :
    (table : List Row) (col fuel first count : ℕ)
    → upper_bound_loop table col fuel first count ≤ first + count
unfolding upper_bound_loop
upper_bound_loop-le table col zero first count = omega arith
upper_bound_loop-le table col (suc fuel) first count = ground (
  arith,
  upper_bound_loop-le table col fuel first (count / 2),
  upper_bound_loop-le table col fuel (first + count / 2 + 1) (count - (count / 2 + 1)),
)

pub get_pivot_upper_bound-le : (m : BitMatrix) (col : ℕ) → get_pivot_upper_bound m col ≤ m.rows
unfolding get_pivot_upper_bound
get_pivot_upper_bound-le m col = omega (arith, upper_bound_loop-le m.row_table col m.rows 0 m.rows)

-- The pivots of the rows below `first` are at most `col`, and from `last` on they are above it.
module _ (m : BitMatrix) (col : ℕ)
    (sorted : (i j : ℕ) → i ≤ j → j < m.rows → get_pivot m i ≤ get_pivot m j) where
  pub record Splits (k : ℕ) : Type 0 where
    pub below : (i : ℕ) → i < k → get_pivot m i ≤ col
    pub above : (i : ℕ) → k ≤ i → i < m.rows → col < get_pivot m i

  upper_bound_loop-Splits :
      (fuel first count : ℕ)
      → count ≤ fuel
      → first + count ≤ m.rows
      → ((i : ℕ) → i < first → get_pivot m i ≤ col)
      → ((i : ℕ) → first + count ≤ i → i < m.rows → col < get_pivot m i)
      → Splits (upper_bound_loop m.row_table col fuel first count)
  unfolding upper_bound_loop
  upper_bound_loop-Splits zero first count lf le lo hi = record {
    below = lo;
    above = λ i h. hi i (omega arith);
  }
  upper_bound_loop-Splits (suc fuel) first count lf le lo hi = elim (Bool-cases (count == 0)) [
    | inl z ↦ rw z (record { below = lo; above = λ i h. hi i (ground arith) })
    | inr nz ↦
        let middle = first + count / 2 in
        let end : middle + 1 + (count - (count / 2 + 1)) ≡ first + count = ground arith in
        elim (Bool-cases (ltb col (get_pivot m middle))) [
          | inl gt ↦
              rw (nz, gt)
                (upper_bound_loop-Splits fuel first (count / 2) (omega arith) (omega arith) lo
                  (λ i h lt. ground (arith, sorted middle i)))
          | inr le' ↦
              rw (nz, le')
                (upper_bound_loop-Splits fuel (middle + 1) (count - (count / 2 + 1)) (omega arith)
                  (omega arith) (λ i h. ground (arith, sorted i middle))
                  (λ i h lt. hi i (omega arith) lt))
        ]
  ]

  -- Where the pivots are in increasing order, the rows below the result of `GetPivotUpperBound(col)` have pivots up to
  -- `col`, and the others above it.
  pub get_pivot_upper_bound-Splits : Splits (get_pivot_upper_bound m col)
  unfolding get_pivot_upper_bound
  get_pivot_upper_bound-Splits =
      upper_bound_loop-Splits m.rows 0 m.rows (omega arith) (omega arith)
        (λ i h. absurd (omega arith)) (λ i h lt. absurd (omega arith))
