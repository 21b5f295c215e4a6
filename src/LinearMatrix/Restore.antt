-- ===== src/LinearMatrix/Restore.antt =====
-- FixChanges, a logged addition to a row, and Undo of src/linear_matrix.cpp and src/change.cpp.

use nldtool.Base.{ℕ, ◌*◌, ◌<◌, ◌≡◌, ◌≢◌, refl, arith, Bool, true, false, List, ◌∷◌, xor, ap}
use nldtool.BitMatrix.{BitMatrix, get_pivot, xor_row_to_row, xor_row}
use nldtool.BitMatrix.Pivot.{IsPivot, IsPivot-ext, IsPivot-unique}
use nldtool.BitMatrix.Invariant.{IsWf, IsUpdate, row_bits, row_bits-IsUpdate, IsUpdate-IsWf}
use nldtool.BitMatrix.Update.{xor_row_to_row-IsUpdate}
use nldtool.BitMatrix.Equation.{Increasing, eq_bits, xor_row-IsUpdate}
use nldtool.LinearMatrix.{LinearMatrix, xor_row_logged, xor_row_to_row_logged}
use nldtool.LinearMatrix.Undo.{undo, undo_changes, undo_change, fix_changes}

-- The rows and pivots of two matrices are the same.
pub record SameRows (m m' : BitMatrix) : Type 0 where
  pub bits : (i c : ℕ) → i < m.rows → c < 64 * m.cols64 → row_bits m' i c ≡ row_bits m i c
  pub pivots : (i : ℕ) → i < m.rows → get_pivot m' i ≡ get_pivot m i

module _ {m m1 m2 : BitMatrix} {r : ℕ} {g1 g2 : ℕ → Bool} (w : IsWf m) (lt : r < m.rows)
    (u1 : IsUpdate m m1 r g1) (u2 : IsUpdate m1 m2 r g2)
    (back : (c : ℕ) → c < 64 * m.cols64 → g2 c ≡ row_bits m r c) where
  w1 : IsWf m1
  w1 = IsUpdate-IsWf w lt u1

  lt1 : r < m1.rows
  lt1 = rw u1.rows lt

  bits_back : (i c : ℕ) → i < m.rows → c < 64 * m.cols64 → row_bits m2 i c ≡ row_bits m i c
  bits_back i c li lc = ground (
    arith,
    row_bits-IsUpdate w1 lt1 u2 i c (rw u1.rows li) (rw u1.cols64 lc),
    row_bits-IsUpdate w lt u1 i c li lc,
    back c lc,
    ap (λ k. row_bits m k c) {x = r} {y = i},
  )

  SameRows-back : SameRows m m2
  SameRows-back = record {
    bits = bits_back;
    pivots = λ i li.
        let p2 : IsPivot (64 * m1.cols64) (row_bits m2 i) (get_pivot m2 i) =
          rw (← u2.cols64) ((IsUpdate-IsWf w1 lt1 u2).pivots i (rw (u2.rows, u1.rows) li)) in
        IsPivot-unique (IsPivot-ext (λ c lc. bits_back i c li lc) (rw u1.cols64 at p2))
          (w.pivots i li);
  }

xor_twice : (x y : Bool) → xor (xor x y) y ≡ x
unfolding xor
xor_twice true true = refl
xor_twice true false = refl
xor_twice false true = refl
xor_twice false false = refl

-- In a well-formed matrix, `Undo` after `FixChanges` and a logged `XorRowtoRow` of two different rows takes the addition
-- back: the rows and pivots are those before.
pub undo-xor_row_to_row :
    (l : LinearMatrix) (a b : ℕ)
    → IsWf l.matrix
    → a < l.matrix.rows
    → b < l.matrix.rows
    → a ≢ b
    → SameRows l.matrix (undo (xor_row_to_row_logged (fix_changes l) a b true).0).matrix
unfolding undo undo_changes undo_change fix_changes xor_row_to_row_logged
undo-xor_row_to_row l a b w la lb ne =
    let m = l.matrix in
    let u1 = xor_row_to_row-IsUpdate m a b w la lb ne in
    let w1 = IsUpdate-IsWf w la u1 in
    let u2 =
      xor_row_to_row-IsUpdate (xor_row_to_row m a b).0 a b w1 (rw u1.rows la) (rw u1.rows lb) ne in
    SameRows-back w la u1 u2 (λ c lc.
      rw (row_bits-IsUpdate w la u1 a c la lc, row_bits-IsUpdate w la u1 b c lb lc)
        (ground (arith, xor_twice (row_bits m a c) (row_bits m b c))))

-- In a well-formed matrix, `Undo` after `FixChanges` and a logged `XorRow` of strictly increasing columns takes the
-- addition back: the rows and pivots are those before.
pub undo-xor_row :
    (l : LinearMatrix) (r col : ℕ) (rest : List ℕ)
    → IsWf l.matrix
    → r < l.matrix.rows
    → Increasing 0 (64 * l.matrix.cols64) (col ∷ rest)
    → SameRows l.matrix (undo (xor_row_logged (fix_changes l) r (col ∷ rest) true)).matrix
unfolding undo undo_changes undo_change fix_changes xor_row_logged
undo-xor_row l r col rest w lr s =
    let m = l.matrix in
    let u1 = xor_row-IsUpdate m r col rest w lr s in
    let w1 = IsUpdate-IsWf w lr u1 in
    let u2 =
      xor_row-IsUpdate (xor_row m r (col ∷ rest)).0 r col rest w1 (rw u1.rows lr)
        (rw u1.cols64 s) in
    SameRows-back w lr u1 u2 (λ c lc.
      rw (row_bits-IsUpdate w lr u1 r c lr lc)
        (ground (arith, xor_twice (row_bits m r c) (eq_bits (col ∷ rest) c))))
