-- ===== src/LinearMatrix/Initial.antt =====
-- The constructor of `LinearMatrix` and `InitBit` in src/linear_matrix.h give a system that
-- `AddEquation` accepts.
use nldtool.Base.{ℕ, ◌+◌, ◌*◌, ◌<◌, arith, []}
use nldtool.BitMatrix.{bit_matrix}
use nldtool.BitMatrix.Equation.{xor_row-IsUpdate, xor_bit-eq-xor_row}
use nldtool.BitMatrix.Invariant.{IsUpdate-IsWf}
use nldtool.BitMatrix.Initial.{bit_matrix-IsWf, words_for-bounds}
use nldtool.LinearMatrix.{LinearMatrix, linear_matrix, init, init_bit}
use nldtool.LinearMatrix.Keeps.{IsReady}

-- A new system is ready: its matrix is well formed, RHS is a column of it, and no row waits.
pub linear_matrix-IsReady : (rows cols : ℕ) → IsReady (linear_matrix rows cols)
unfolding linear_matrix init bit_matrix
linear_matrix-IsReady rows cols = record {
  wf = bit_matrix-IsWf rows (cols + 64) (omega arith);
  rhs_lt = omega (arith, words_for-bounds (cols + 64));
  pending = tt;
}

-- `InitBit` keeps a system ready, for a row and a column of its matrix.
pub init_bit-IsReady :
    (l : LinearMatrix) (row col : ℕ)
    → IsReady l
    → row < l.matrix.rows
    → col < 64 * l.matrix.cols64
    → IsReady (init_bit l row col)
unfolding init_bit
init_bit-IsReady l row col r lt lc = rw xor_bit-eq-xor_row (
    let u = xor_row-IsUpdate l.matrix row col [] r.wf lt (omega arith, lc, tt) in
    record {
      wf = IsUpdate-IsWf r.wf lt u;
      rhs_lt = rw u.cols64 r.rhs_lt;
      pending = rw u.rows r.pending;
    })
