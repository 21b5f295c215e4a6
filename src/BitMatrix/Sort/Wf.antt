-- ===== src/BitMatrix/Sort/Wf.antt =====
-- `SortByPivot` of src/bit_matrix.cpp keeps the invariant of the matrix.
use nldtool.Base.{
  ℕ, ◌*◌, ◌/◌, ◌<◌, ◌≡◌, refl, arith, ap, ap₂, sym, ◌∙◌, subst, List, tri, inl, inr, length,
}
use nldtool.BitMatrix.{BitMatrix, Row, row_at}
use nldtool.BitMatrix.Blocks.{col_bit, AllWords}
use nldtool.BitMatrix.Pivot.{IsPivot}
use nldtool.BitMatrix.Invariant.{IsWf}
use nldtool.BitMatrix.Sort.{sort_by_pivot, sort_by_pivot-SameData}
use nldtool.BitMatrix.Sort.Weights.{InOrder}
use nldtool.BitMatrix.Sort.Keeps.{sort_by_pivot-IsSorted}
use nldtool.BitMatrix.Sort.Distinct.{starts_at, counted_twice, counted_once}

-- What the invariant says of one row.
abbrev IsFine : BitMatrix → Row → Type 0
IsFine m r =
    (r.index ≡ r.index / m.cols64 * m.cols64)
    × (r.index / m.cols64 < m.rows)
    × IsPivot (64 * m.cols64) (col_bit m.words r.index) r.pivot

module _ (m : BitMatrix) (changed : List ℕ) (w : IsWf m) (ordered : InOrder m.rows 0 changed) where
  row_at-IsFine : (k : ℕ) → k < m.rows → IsFine m (row_at m k)
  row_at-IsFine k lt = (w.start k lt, w.phys_lt k lt, w.pivots k lt)

  distinct_before :
      (i j : ℕ) → i < m.rows → j < m.rows → (row_at m i).index ≡ (row_at m j).index → i ≡ j
  distinct_before i j hi hj e = w.phys_inj i j hi hj (ap (λ x. x / m.cols64) e)

  distinct_after :
      (i j : ℕ)
      → i < j
      → j < m.rows
      → ¬ (
          (row_at (sort_by_pivot m changed).0 i).index
          ≡ (row_at (sort_by_pivot m changed).0 j).index)
  distinct_after i j lt hj e =
      let m' = (sort_by_pivot m changed).0 in
      let x = (row_at m' j).index in
      let (size, sum, fine) =
        sort_by_pivot-IsSorted (starts_at x) (IsFine m) m changed row_at-IsFine w.table ordered in
      absurd (
        omega (
          arith,
          sum,
          counted_twice m'.row_table m.rows x i j lt hj e refl,
          counted_once m.row_table m.rows x distinct_before,
        ))

  inside : (i : ℕ) → i < (sort_by_pivot m changed).0.rows → i < m.rows
  inside i h = let d = sort_by_pivot-SameData m changed in omega (arith, d.rows, h)

  -- Where the changed rows are listed in increasing order, `SortByPivot` keeps the invariant of the matrix.
  pub sort_by_pivot-IsWf : IsWf (sort_by_pivot m changed).0
  sort_by_pivot-IsWf =
      let m' = (sort_by_pivot m changed).0 in
      let d = sort_by_pivot-SameData m changed in
      let (size, sum, fine) =
        sort_by_pivot-IsSorted (starts_at 0) (IsFine m) m changed row_at-IsFine w.table ordered in
      record {
        positive = omega (arith, d.cols64, w.positive);
        table = size ∙ sym d.rows;
        size = ap length d.words ∙ w.size ∙ ap₂ (λ x y. x * y) (sym d.rows) (sym d.cols64);
        words64 = subst (λ ws. AllWords ws) (sym d.words) w.words64;
        start = λ i h.
            subst (λ c. (row_at m' i).index ≡ (row_at m' i).index / c * c) (sym d.cols64)
              (fine i (inside i h)).0;
        phys_lt = λ i h.
            subst (λ c. (row_at m' i).index / c < m'.rows) (sym d.cols64)
              (subst (λ n. (row_at m' i).index / m.cols64 < n) (sym d.rows)
                (fine i (inside i h)).1);
        phys_inj = λ i j hi hj e.
            let e' : (row_at m' i).index / m.cols64 ≡ (row_at m' j).index / m.cols64 =
              subst (λ c. (row_at m' i).index / c ≡ (row_at m' j).index / c) d.cols64 e in
            let same : (row_at m' i).index ≡ (row_at m' j).index =
              (fine i (inside i hi)).0 ∙ ap (λ x. x * m.cols64) e' ∙ sym (fine j (inside j hj)).0 in
            elim (tri i j) [
              | inl lt ↦ absurd (distinct_after i j lt (inside j hj) same)
              | inr (inl found) ↦ found
              | inr (inr gt) ↦ absurd (distinct_after j i gt (inside i hi) (sym same))
            ];
        pivots = λ i h.
            subst (λ c. IsPivot (64 * c) (col_bit m'.words (row_at m' i).index) (row_at m' i).pivot)
              (sym d.cols64)
              (subst
                (λ ws. IsPivot (64 * m.cols64) (col_bit ws (row_at m' i).index) (row_at m' i).pivot)
                (sym d.words) (fine i (inside i h)).2);
      }
