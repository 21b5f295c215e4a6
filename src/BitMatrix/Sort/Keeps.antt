-- ===== src/BitMatrix/Sort/Keeps.antt =====
-- `SortByPivot` of src/bit_matrix.cpp from its start to its end: the table has the same rows in another order.
use nldtool.Base.{
  ℕ, zero, suc, ◌+◌, ◌-◌, ◌≤◌, ◌<◌, ◌≡◌, refl, arith, ap, sym, ◌∙◌, subst, true, false, List, [],
  ◌∷◌, map, ◌==◌, leb, ◌⊎◌, tri, Bool-cases, List-cases, inl, inr, length, All,
}
use native.Mathlib.Decide.{ℕ_discrete}
use nldtool.BitMatrix.{BitMatrix, Row, row_at}
use nldtool.BitMatrix.Sort.{Sorting, insert_row, sort_rows, sort_round, sort_loop, sort_by_pivot}
use nldtool.BitMatrix.Sort.Weights.{
  at, InOrder, total, upto, total-sort_rows, left_over-none, left_over-removed,
}
use nldtool.BitMatrix.Sort.Merge.{IsMerging, Merging, upto-same}
use nldtool.BitMatrix.Sort.Round.{sort_round-Merging}

module _ {κ} (w : Row → ℕ) (Fine : Row → Type κ) (t : List Row) (n : ℕ)
    (all : (k : ℕ) → k < n → Fine (at t k)) where
  -- A table of as many rows of the same weight, all of them fine.
  abbrev pub IsSorted : List Row → Type κ
  IsSorted table =
      (length table ≡ n) × (upto w table n ≡ upto w t n) × ((k : ℕ) → k < n → Fine (at table k))

  settled :
      (table : List Row) (write read : ℕ)
      → IsMerging w Fine t n all table write read [] []
      → write ≡ read
      → IsSorted table
  unfolding total
  settled table write read m e =
      let step = upto-same w Fine t n all table read m.left m.same in
      let rest = left_over-none w t m.left read in
      let step' = rw m.top at step in
      let rest' = rw m.top at rest in
      let start : upto w table write ≡ upto w table read = ap (upto w table) e in
      (
        m.size,
        omega (arith, m.sum, step', rest', start),
        λ k lt. elim (tri k write) [
          | inl below ↦ m.fine k below
          | inr above ↦ subst Fine (sym (m.same k (ground (arith, above, e)))) (all k lt)
        ],
      )

  -- With nothing to insert, or with all places written, the table is sorted.
  finished :
      (s : Sorting)
      → Merging w Fine t n all s
      → (length s.inserting ≡ 0) ⊎ (s.write ≡ n)
      → IsSorted s.matrix.row_table
  unfolding InOrder
  finished s m h = elim (List-cases s.remove) [
    | inl e ↦ elim (List-cases s.inserting) [
      | inl e' ↦
          let m1 : IsMerging w Fine t n all s.matrix.row_table s.write s.read [] s.inserting =
            subst (λ q. IsMerging w Fine t n all s.matrix.row_table s.write s.read q s.inserting) e
              m in
          let m2 : IsMerging w Fine t n all s.matrix.row_table s.write s.read [] [] =
            subst (λ q. IsMerging w Fine t n all s.matrix.row_table s.write s.read [] q) e' m1 in
          settled s.matrix.row_table s.write s.read m2 (let c = m2.counted in omega (arith, c))
      | inr (r, rs, e') ↦
          absurd (ground (arith, h, ap length e', ap length e, m.counted, m.behind, m.top))
    ]
    | inr (x, xs, e) ↦
        let ordered : InOrder n s.read (x ∷ xs) = subst (InOrder n s.read) e m.ordered in
        absurd (ground (arith, h, ap length e, m.counted, m.behind, m.top, ordered.0, ordered.1))
  ]

  sort_loop-IsSorted :
      (fuel : ℕ) (s : Sorting)
      → s.matrix.rows ≡ n
      → Merging w Fine t n all s
      → n ≤ fuel + s.write
      → IsSorted (sort_loop fuel s).matrix.row_table
  unfolding sort_loop
  sort_loop-IsSorted zero s rows m enough =
      finished s m (inr (omega (arith, enough, m.behind, m.top)))
  sort_loop-IsSorted (suc fuel) s rows m enough = elim (List-cases s.inserting) [
    | inl e ↦ rw (e, sort_loop) (finished s m (inl (ap length e)))
    | inr (next, rest, e) ↦ elim (ℕ_discrete s.write s.matrix.rows) [
      | yes same ↦
          let t' : (s.write == s.matrix.rows) ≡ true = ground arith in
          rw (e, sort_loop, t') (finished s m (inr (same ∙ rows)))
      | no ne ↦
          let t' : (s.write == s.matrix.rows) ≡ false = ground arith in
          let (merged, rows', further) = sort_round-Merging w Fine t n all s next rest rows e m in
          rw (e, sort_loop, t')
            (sort_loop-IsSorted fuel (sort_round s next rest) rows' merged
              (omega (arith, enough, further)))
    ]
  ]

  insert_row-All : (r : Row) (rs : List Row) → Fine r → All Fine rs → All Fine (insert_row r rs)
  unfolding insert_row
  insert_row-All r [] h hs = (h, tt)
  insert_row-All r (x ∷ rs) h hs = elim (Bool-cases (leb r.pivot x.pivot)) [
    | inl t' ↦ rw t' (h, hs)
    | inr f ↦ rw f (hs.0, insert_row-All r rs h hs.1)
  ]

  sort_rows-All : (rs : List Row) → All Fine rs → All Fine (sort_rows rs)
  unfolding sort_rows
  sort_rows-All [] h = tt
  sort_rows-All (r ∷ rs) h = insert_row-All r (sort_rows rs) h.0 (sort_rows-All rs h.1)

  changed-All : (r : ℕ) (xs : List ℕ) → InOrder n r xs → All Fine (map (at t) xs)
  unfolding InOrder
  changed-All r [] h = tt
  changed-All r (x ∷ xs) h = (all x h.1, changed-All (x + 1) xs h.2)

length-insert_row : (r : Row) (rs : List Row) → length (insert_row r rs) ≡ length rs + 1
unfolding insert_row
length-insert_row r [] = omega arith
length-insert_row r (x ∷ rs) = elim (Bool-cases (leb r.pivot x.pivot)) [
  | inl t ↦ rw t (omega arith)
  | inr f ↦ rw f (omega (arith, length-insert_row r rs))
]

length-sort_rows : (t : List Row) (xs : List ℕ) → length (sort_rows (map (at t) xs)) ≡ length xs
unfolding sort_rows
length-sort_rows t [] = refl
length-sort_rows t (x ∷ xs) =
    omega (arith, length-insert_row (at t x) (sort_rows (map (at t) xs)), length-sort_rows t xs)

-- What `SortByPivot` leaves of a table, for any weight and any property of its rows.
pub sort_by_pivot-IsSorted {κ} :
    (w : Row → ℕ) (Fine : Row → Type κ) (m : BitMatrix) (changed : List ℕ)
    (all : (k : ℕ) → k < m.rows → Fine (row_at m k))
    → length m.row_table ≡ m.rows
    → InOrder m.rows 0 changed
    → IsSorted w Fine m.row_table m.rows all (sort_by_pivot m changed).0.row_table
unfolding sort_by_pivot InOrder
sort_by_pivot-IsSorted w Fine m [] all size ordered = (size, refl, all)
sort_by_pivot-IsSorted w Fine m (first ∷ changed) all size ordered =
    let xs = first ∷ changed in
    let rows = map (row_at m) xs in
    let here : InOrder m.rows first xs = (omega arith, ordered.1, ordered.2) in
    let rest = m.rows - first in
    let top : first + rest ≡ m.rows = omega (arith, ordered.1) in
    let start : Sorting = record {
      matrix = m;
      write = first;
      read = first;
      remove = xs;
      inserting = sort_rows rows;
      placed = [];
    } in
    sort_loop-IsSorted w Fine m.row_table m.rows all m.rows start refl
      record {
        size = size;
        behind = omega arith;
        left = rest;
        top = top;
        ordered = here;
        counted = omega (arith, length-sort_rows m.row_table xs);
        same = λ k le. refl;
        sum = omega (
          arith,
          total-sort_rows w rows,
          left_over-removed w m.row_table m.rows rest first xs top here,
        );
        fine = λ k lt. all k (omega (arith, lt, ordered.1));
        fine_new =
            sort_rows-All w Fine m.row_table m.rows all rows
              (changed-All w Fine m.row_table m.rows all first xs here);
      }
      (omega arith)
