-- ===== src/BitMatrix/Sort/Merge.antt =====
-- The loop of `SortByPivot` of src/bit_matrix.cpp: what holds between its rounds, and the jump to the next changed row.
use nldtool.Base.{
  ℕ, zero, suc, ◌+◌, ◌-◌, ◌≤◌, ◌<◌, ◌≡◌, refl, arith, ap, sym, subst, true, false, List, ◌∷◌, ◌==◌,
  ◌⊎◌, tri, List-cases, inl, inr, length, All,
}
use native.Mathlib.Decide.{ℕ_discrete}
use nldtool.BitMatrix.{Row}
use nldtool.BitMatrix.Sort.{Sorting, skip_gap}
use nldtool.BitMatrix.Sort.Weights.{at, InOrder, total, upto, left_over, upto-suc, left_over-gap}

module _ {κ} (w : Row → ℕ) (Fine : Row → Type κ) (t : List Row) (n : ℕ)
    (all : (k : ℕ) → k < n → Fine (at t k)) where
  -- What is done, what is to be inserted, and what is left of the table `t` of `n` rows weigh as much as the table; all rows
  -- are fine.
  pub record IsMerging (table : List Row) (write read : ℕ) (remove : List ℕ) (inserting : List Row)
      : Type κ where
    pub size : length table ≡ n
    pub behind : write ≤ read
    pub left : ℕ
    pub top : read + left ≡ n
    pub ordered : InOrder n read remove
    pub counted : length inserting + write ≡ length remove + read
    pub same : (k : ℕ) → read ≤ k → at table k ≡ at t k
    pub sum : upto w table write + total w inserting + left_over w t left read remove ≡ upto w t n
    pub fine : (k : ℕ) → k < write → Fine (at table k)
    pub fine_new : All Fine inserting

  abbrev pub Merging : Sorting → Type κ
  Merging s = IsMerging s.matrix.row_table s.write s.read s.remove s.inserting

  pub upto-same :
      (table : List Row) (r d : ℕ)
      → ((k : ℕ) → r ≤ k → at table k ≡ at t k)
      → upto w table (r + d) + upto w t r ≡ upto w t (r + d) + upto w table r
  upto-same table r zero h = let e : r + 0 ≡ r = omega arith in rw e (omega arith)
  upto-same table r (suc d) h =
      let e : r + suc d ≡ r + d + 1 = omega arith in
      rw e (
        omega (
          arith,
          upto-same table r d h,
          upto-suc w table (r + d),
          upto-suc w t (r + d),
          ap w (h (r + d) (omega arith)),
        ))

  -- The jump over rows that stay.
  jumped :
      (table : List Row) (r x : ℕ) (xs : List ℕ) (inserting : List Row)
      → IsMerging table r r (x ∷ xs) inserting
      → IsMerging table x x (x ∷ xs) inserting
  unfolding InOrder
  jumped table r x xs inserting m =
      let d = x - r in
      let to : r + d ≡ x = omega (arith, m.ordered.0) in
      let left' = n - x in
      let whole : m.left ≡ d + left' = omega (arith, m.top, m.ordered.0, m.ordered.1) in
      let gap = left_over-gap w t d left' r x xs (omega arith) in
      let gap' = rw to at gap in
      let step = upto-same table r d m.same in
      let step' = rw to at step in
      let sum0 = m.sum in
      let sum' = rw whole at sum0 in
      record {
        size = m.size;
        behind = omega arith;
        left = left';
        top = omega (arith, m.ordered.1);
        ordered = (omega arith, m.ordered.1, m.ordered.2);
        counted = omega (arith, m.counted);
        same = λ k le. m.same k (omega (arith, le, m.ordered.0));
        sum = omega (arith, sum', gap', step');
        fine = λ k lt. elim (tri k r) [
          | inl below ↦ m.fine k below
          | inr above ↦
              subst Fine (sym (m.same k (ground (arith, above))))
                (all k (omega (arith, lt, m.ordered.1)))
        ];
        fine_new = m.fine_new;
      }

  -- After the jump a gap is there or the next row read is removed.
  pub record IsSkipped (s s1 : Sorting) : Type κ where
    pub merging : Merging s1
    pub rows : s1.matrix.rows ≡ s.matrix.rows
    pub inserting : s1.inserting ≡ s.inserting
    pub further : s.write ≤ s1.write
    pub ready : (s1.write < s1.read) ⊎ ((xs : List ℕ) × (s1.remove ≡ s1.read ∷ xs))

  pub skip_gap-IsSkipped :
      (s : Sorting) → 0 < length s.inserting → Merging s → IsSkipped s (skip_gap s)
  unfolding skip_gap InOrder
  skip_gap-IsSkipped s some_row m = elim (List-cases s.remove) [
    | inl e ↦
        let none_left : length s.remove ≡ 0 = ap length e in
        rw (e, skip_gap)
          record {
            merging = m;
            rows = refl;
            inserting = refl;
            further = omega arith;
            ready = inl (omega (arith, none_left, m.counted, some_row));
          }
    | inr (x, xs, e) ↦
        let table = s.matrix.row_table in
        let m1 : IsMerging table s.write s.read (x ∷ xs) s.inserting =
          subst (λ q. IsMerging table s.write s.read q s.inserting) e m in
        elim (ℕ_discrete s.write s.read) [
          | yes same ↦
              let t' : (s.write == s.read) ≡ true = ground arith in
              let m2 : IsMerging table s.read s.read (x ∷ xs) s.inserting =
                subst (λ q. IsMerging table q s.read (x ∷ xs) s.inserting) same m1 in
              let m3 = jumped table s.read x xs s.inserting m2 in
              rw (e, skip_gap, t')
                record {
                  merging = subst (λ q. IsMerging table x x q s.inserting) (sym e) m3;
                  rows = refl;
                  inserting = refl;
                  further = omega (arith, same, m2.ordered.0);
                  ready = inr (xs, e);
                }
          | no ne ↦
              let t' : (s.write == s.read) ≡ false = ground arith in
              rw (e, skip_gap, t')
                record {
                  merging = m;
                  rows = refl;
                  inserting = refl;
                  further = omega arith;
                  ready = inl (omega (arith, ne, m.behind));
                }
        ]
  ]
