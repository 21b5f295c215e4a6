-- ===== src/LinearMatrix/Equation.antt =====
-- `AddEquation` of src/linear_matrix.cpp decides the system together with the new equation.

use nldtool.Base.{
  ℕ, zero, suc, ◌+◌, ◌*◌, ◌≤◌, ◌<◌, ◌≢◌, refl, arith, Bool, true, false, not, List, [], ◌∷◌, ◌==◌,
  ◌&&◌, length, inl, inr, ◌∙◌, Bool-cases,
}
use nldtool.BitMatrix.{get_pivot, get_bit, get_pivot_upper_bound}
use nldtool.BitMatrix.Equation.{Increasing}
use nldtool.BitMatrix.UpperBound.{get_pivot_upper_bound-le}
use nldtool.LinearMatrix.{
  LinearMatrix, touch, reduce_at, reduce_row, substitute, touch_at, touch_pivots, enter_equation,
}
use nldtool.LinearMatrix.Measure.{length-set_insert-le, set_insert-All}
use nldtool.LinearMatrix.Keeps.{IsReady, Keeps}
use nldtool.LinearMatrix.Added.{xor_row_to_row_logged-IsAdded, Keeps-added}
use nldtool.LinearMatrix.Enter.{
  Enters, Enters-of-Keeps, Enters-refl, Enters-trans, xor_row_logged-Enters,
}

touch-Keeps :
    (l : LinearMatrix) (row : ℕ) (moved : Bool)
    → IsReady l
    → row < l.matrix.rows
    → Keeps l (touch l row moved)
unfolding touch
touch-Keeps l row true r lt = record {
  ready = record {
    wf = r.wf;
    rhs_lt = r.rhs_lt;
    pending = set_insert-All _ row l.update_rows lt r.pending;
  };
  rows = refl;
  cols64 = refl;
  rhs = refl;
  solves = λ v s. s;
  solved = λ v s. s;
}
touch-Keeps l row false r lt = record {
  ready = record {
    wf = r.wf;
    rhs_lt = r.rhs_lt;
    pending = set_insert-All _ row l.update_rows lt r.pending;
  };
  rows = refl;
  cols64 = refl;
  rhs = refl;
  solves = λ v s. s;
  solved = λ v s. s;
}

touch-length :
    (l : LinearMatrix) (row : ℕ) (moved : Bool)
    → length (touch l row moved).update_rows ≤ length l.update_rows + 1
unfolding touch
touch-length l row moved = ground (arith, length-set_insert-le row l.update_rows)

module _ (equation : List ℕ) where
  touch-Enters :
      (l : LinearMatrix) (row : ℕ) (moved : Bool)
      → IsReady l
      → row < l.matrix.rows
      → Enters equation 1 l (touch l row moved)
  touch-Enters l row moved r lt =
      Enters-of-Keeps 1 (touch-Keeps l row moved r lt) (touch-length l row moved)

  touch_at-Enters :
      (col above : ℕ) (l : LinearMatrix)
      → IsReady l
      → above ≤ l.matrix.rows
      → Enters equation 1 l (touch_at col above l)
  unfolding touch_at
  touch_at-Enters col zero l r le = Enters-refl 1 l r
  touch_at-Enters col (suc row) l r le = elim (Bool-cases (get_pivot l.matrix row == col)) [
    | inl hit ↦ rw hit (touch-Enters l row false r le)
    | inr miss ↦ rw miss (Enters-refl 1 l r)
  ]

  touch_pivots-Enters :
      (cols : List ℕ) (l : LinearMatrix)
      → IsReady l
      → Enters equation (length cols) l (touch_pivots cols l)
  unfolding touch_pivots
  touch_pivots-Enters [] l r = Enters-refl 0 l r
  touch_pivots-Enters (col ∷ cols) l r =
      let first =
        touch_at-Enters col (get_pivot_upper_bound l.matrix col) l r
          (get_pivot_upper_bound-le l.matrix col) in
      Enters-trans 1 (length cols) (suc (length cols)) (omega arith) first
        (touch_pivots-Enters cols _ first.ready)

  reduce_at-Enters :
      (row : ℕ) (backtrack : Bool) (col above : ℕ) (l : LinearMatrix)
      → IsReady l
      → row < l.matrix.rows
      → above ≤ l.matrix.rows
      → Enters equation 0 l (reduce_at row backtrack col above l)
  unfolding reduce_at
  reduce_at-Enters row backtrack col zero l r lt le = Enters-refl 0 l r
  reduce_at-Enters row backtrack col (suc other) l r lt le =
      elim (Bool-cases (not (row == other) && get_pivot l.matrix other == col)) [
        | inl hit ↦
            let ne : row ≢ other = λ e. ground arith in
            let x = (xor_row_to_row_logged-IsAdded l row other backtrack).0 in
            rw hit (
              Enters-of-Keeps 0 (Keeps-added r lt le ne _ x.matrix x.rhs (rw x.pending r.pending))
                (rw x.pending (omega arith)))
        | inr miss ↦ rw miss (Enters-refl 0 l r)
      ]

  reduce_row-Enters :
      (row : ℕ) (backtrack : Bool) (cols : List ℕ) (l : LinearMatrix)
      → IsReady l
      → row < l.matrix.rows
      → Enters equation 0 l (reduce_row row backtrack cols l)
  unfolding reduce_row
  reduce_row-Enters row backtrack [] l r lt = Enters-refl 0 l r
  reduce_row-Enters row backtrack (col ∷ cols) l r lt =
      let first =
        reduce_at-Enters row backtrack col (get_pivot_upper_bound l.matrix col) l r lt
          (get_pivot_upper_bound-le l.matrix col) in
      Enters-trans 0 0 0 (omega arith) first
        (reduce_row-Enters row backtrack cols _ first.ready (rw first.rows lt))

module _ (first : ℕ) (rest : List ℕ) where
  substitute-Enters :
      (backtrack : Bool) (left row : ℕ) (l : LinearMatrix)
      → IsReady l
      → row + left ≤ l.matrix.rows
      → Increasing 0 (64 * l.matrix.cols64) (first ∷ rest)
      → Enters (first ∷ rest) 0 l (substitute (first ∷ rest) backtrack left row l)
  unfolding substitute
  substitute-Enters backtrack zero row l r le s = Enters-refl 0 l r
  substitute-Enters backtrack (suc left) row l r le s =
      elim (Bool-cases (get_bit l.matrix row first)) [
        | inl hit ↦
            let now = xor_row_logged-Enters l row first rest backtrack r (omega arith) s in
            rw hit (
              Enters-trans 0 0 0 (omega arith) now (
                substitute-Enters backtrack left (row + 1) _ now.ready (rw now.rows (omega arith))
                  (rw now.cols64 s)))
        | inr miss ↦ rw miss (substitute-Enters backtrack left (row + 1) l r (omega arith) s)
      ]

  -- What `AddEquation` does before `EpsilonGauss`.
  pub enter_equation-Enters :
      (above : ℕ) (l : LinearMatrix) (backtrack : Bool)
      → IsReady l
      → above ≤ l.matrix.rows
      → Increasing 0 (64 * l.matrix.cols64) (first ∷ rest)
      → Enters (first ∷ rest) (length rest + 1) l (enter_equation above l first rest backtrack)
  unfolding enter_equation
  enter_equation-Enters zero l backtrack r le s =
      Enters-trans (length rest) 0 (length rest + 1) (omega arith)
        (touch_pivots-Enters (first ∷ rest) rest l r)
        (Enters-refl 0 _ (touch_pivots-Enters (first ∷ rest) rest l r).ready)
  enter_equation-Enters (suc row) l backtrack r le s =
      elim (Bool-cases (get_pivot l.matrix row == first)) [
        | inl hit ↦
            let a = xor_row_logged-Enters l row first rest backtrack r le s in
            let b = touch-Enters (first ∷ rest) _ row true a.ready (rw a.rows le) in
            let c =
              reduce_row-Enters (first ∷ rest) row backtrack rest _ b.ready
                (rw (b.rows ∙ a.rows) le) in
            rw hit (
              Enters-trans 0 1 (length rest + 1) (omega arith) a
                (Enters-trans 1 0 1 (omega arith) b c))
        | inr miss ↦
            let a = substitute-Enters backtrack (suc row) 0 l r (omega arith) s in
            let b = touch_pivots-Enters (first ∷ rest) rest _ a.ready in
            rw miss (Enters-trans 0 (length rest) (length rest + 1) (omega arith) a b)
      ]
