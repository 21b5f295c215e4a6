-- ===== src/BitMatrix/Sort/Round.antt =====
-- The rounds of the loop of `SortByPivot` of src/bit_matrix.cpp: each writes a row of the table to one place.
use nldtool.Base.{
  ℕ, suc, ◌+◌, ◌-◌, ◌≤◌, ◌<◌, ◌≡◌, refl, arith, ap, sym, ◌∙◌, subst, List, ◌∷◌, ◌==◌, leb, ◌||◌,
  Bool-cases, inl, inr, length, length-set, set, get_or-set_self, get_or-set_ne,
}
use native.Mathlib.Decide.{ℕ_discrete}
use nldtool.BitMatrix.{Row, row_at, no_row}
use nldtool.BitMatrix.Sort.{Sorting, skip_gap, skip_removed, store_row, place_row, sort_round}
use nldtool.BitMatrix.Sort.Weights.{
  at, InOrder, total, upto-set, left_over-kept, skip_removed-left, skip_removed-head, InOrder-down,
}
use nldtool.BitMatrix.Sort.Merge.{IsMerging, Merging, skip_gap-IsSkipped}

module _ {κ} (w : Row → ℕ) (Fine : Row → Type κ) (t : List Row) (n : ℕ)
    (all : (k : ℕ) → k < n → Fine (at t k)) where
  abbrev Between : List Row → ℕ → ℕ → List ℕ → List Row → Type κ
  Between table write read remove inserting =
      IsMerging w Fine t n all table write read remove inserting

  -- A row is stored behind the place that is read next.
  stored :
      (table : List Row) (write read : ℕ) (remove : List ℕ) (next : Row) (rest : List Row)
      → Between table write read remove (next ∷ rest)
      → write < read
      → Between (set table write next) (write + 1) read remove rest
  unfolding total
  stored table write read remove next rest m gap = record {
    size = length-set table write next ∙ m.size;
    behind = omega arith;
    left = m.left;
    top = m.top;
    ordered = m.ordered;
    counted = omega (arith, m.counted);
    same = λ k le.
        get_or-set_ne table write k next no_row (λ e. absurd (omega (arith, e, le, gap)))
        ∙ m.same k le;
    sum = omega (arith, m.sum, upto-set w table write next (omega (arith, m.size, m.top, gap)));
    fine = λ k lt. elim (ℕ_discrete k write) [
      | yes e ↦
          subst Fine
            (sym (
              ap (at (set table write next)) e
              ∙ get_or-set_self table write next no_row (omega (arith, m.size, m.top, gap))))
            m.fine_new.0
      | no ne ↦
          subst Fine (sym (get_or-set_ne table write k next no_row (λ e. ne (sym e))))
            (m.fine k (omega arith))
    ];
    fine_new = m.fine_new.1;
  }

  -- A row that is read is moved to that place.
  moved :
      (table : List Row) (write read : ℕ) (remove : List ℕ) (inserting : List Row)
      → Between table write read remove inserting
      → write < read
      → read < n
      → InOrder n (read + 1) remove
      → Between (set table write (at table read)) (write + 1) (read + 1) remove inserting
  moved table write read remove inserting m gap lt ordered =
      let r = at table read in
      let here : r ≡ at t read = m.same read (omega arith) in
      let left' = n - (read + 1) in
      let whole : m.left ≡ suc left' = omega (arith, m.top, lt) in
      let kept = left_over-kept w t n left' read remove ordered in
      let sum0 = m.sum in
      let sum' = rw whole at sum0 in
      record {
        size = length-set table write r ∙ m.size;
        behind = omega arith;
        left = left';
        top = omega arith;
        ordered = ordered;
        counted = omega (arith, m.counted);
        same = λ k le.
            get_or-set_ne table write k r no_row (λ e. absurd (omega (arith, e, le, gap)))
            ∙ m.same k (omega arith);
        sum = omega (
          arith,
          sum',
          kept,
          ap w here,
          upto-set w table write r (omega (arith, m.size, lt, gap)),
        );
        fine = λ k below. elim (ℕ_discrete k write) [
          | yes e ↦
              subst Fine
                (sym (
                  ap (at (set table write r)) e
                  ∙ get_or-set_self table write r no_row (omega (arith, m.size, lt, gap))
                  ∙ here))
                (all read lt)
          | no ne ↦
              subst Fine (sym (get_or-set_ne table write k r no_row (λ e. ne (sym e))))
                (m.fine k (omega arith))
        ];
        fine_new = m.fine_new;
      }

  -- A round of the loop, once the gap is there.
  place_row-Merging :
      (s : Sorting) (next : Row) (rest : List Row)
      → s.matrix.rows ≡ n
      → s.inserting ≡ next ∷ rest
      → Merging w Fine t n all s
      → s.write < s.read
      → InOrder n (s.read + 1) s.remove
      → Merging w Fine t n all (place_row s next rest)
        × ((place_row s next rest).matrix.rows ≡ n)
        × ((place_row s next rest).write ≡ s.write + 1)
  unfolding place_row store_row
  place_row-Merging s next rest rows e m gap ordered =
      let table = s.matrix.row_table in
      elim (Bool-cases (s.read == s.matrix.rows || leb next.pivot (row_at s.matrix s.read).pivot)) [
        | inl t' ↦
            let m1 : Between table s.write s.read s.remove (next ∷ rest) =
              subst (λ q. Between table s.write s.read s.remove q) e m in
            rw t' (stored table s.write s.read s.remove next rest m1 gap, rows, refl)
        | inr f ↦
            let inside : s.read < n = ground (arith, f, rows, m.top) in
            rw f (moved table s.write s.read s.remove s.inserting m gap inside ordered, rows, refl)
      ]

  pub sort_round-Merging :
      (s : Sorting) (next : Row) (rest : List Row)
      → s.matrix.rows ≡ n
      → s.inserting ≡ next ∷ rest
      → Merging w Fine t n all s
      → Merging w Fine t n all (sort_round s next rest)
        × ((sort_round s next rest).matrix.rows ≡ n)
        × (s.write + 1 ≤ (sort_round s next rest).write)
  unfolding sort_round
  sort_round-Merging s next rest rows e m =
      let some_row : 0 < length s.inserting = omega (arith, ap length e) in
      let a = skip_gap-IsSkipped w Fine t n all s some_row m in
      let s1 = skip_gap s in
      let (left', top, ordered, counted, up, kept) =
        skip_removed-left w t n a.merging.left s1.read s1.remove a.merging.top a.merging.ordered in
      let read' = (skip_removed s1.remove s1.read).1 in
      let remove' = (skip_removed s1.remove s1.read).0 in
      let gap : s1.write < read' = elim a.ready [
        | inl lt ↦ omega (arith, lt, up)
        | inr (xs, head) ↦ omega (
          arith,
          a.merging.behind,
          subst (λ q. s1.read < (skip_removed q s1.read).1) (sym head)
              (skip_removed-head xs s1.read),
        )
      ] in
      let m1 : Between s1.matrix.row_table s1.write read' remove' s1.inserting = record {
        size = a.merging.size;
        behind = omega arith;
        left = left';
        top = top;
        ordered = InOrder-down n read' remove' ordered;
        counted = omega (arith, a.merging.counted, counted);
        same = λ k le. a.merging.same k (omega (arith, le, up));
        sum = omega (arith, a.merging.sum, kept);
        fine = a.merging.fine;
        fine_new = a.merging.fine_new;
      } in
      let (merged, rows', wrote) =
        place_row-Merging (record s1 { remove = remove'; read = read' }) next rest (a.rows ∙ rows)
          (a.inserting ∙ e) m1 gap ordered in
      (merged, rows', omega (arith, wrote, a.further))
