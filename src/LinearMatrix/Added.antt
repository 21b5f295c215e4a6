-- ===== src/LinearMatrix/Added.antt =====
-- `XorRowtoRow` of src/linear_matrix.h, with its log, keeps the system.

use nldtool.Base.{ℕ, ◌<◌, ◌≡◌, ◌≢◌, refl, Bool, true, false, All, xor}
use nldtool.BitMatrix.{xor_row_to_row}
use nldtool.BitMatrix.Invariant.{IsUpdate, row_bits, IsUpdate-IsWf}
use nldtool.BitMatrix.Update.{xor_row_to_row-IsUpdate}
use nldtool.LinearMatrix.{LinearMatrix, xor_row_to_row_logged}
use nldtool.LinearMatrix.Keeps.{IsReady, Keeps, xor_row_to_row-solves, xor_row_to_row-solved}

-- The matrix part of the state after `XorRowtoRow(a, b, log)`.
pub record IsAdded (l l' : LinearMatrix) (a b : ℕ) : Type 0 where
  pub matrix : l'.matrix ≡ (xor_row_to_row l.matrix a b).0
  pub rhs : l'.rhs ≡ l.rhs
  pub pending : l'.update_rows ≡ l.update_rows

pub xor_row_to_row_logged-IsAdded :
    (l : LinearMatrix) (a b : ℕ) (log : Bool)
    → IsAdded l (xor_row_to_row_logged l a b log).0 a b
      × ((xor_row_to_row_logged l a b log).1 ≡ (xor_row_to_row l.matrix a b).1)
unfolding xor_row_to_row_logged
xor_row_to_row_logged-IsAdded l a b true =
    (record { matrix = refl; rhs = refl; pending = refl }, refl)
xor_row_to_row_logged-IsAdded l a b false =
    (record { matrix = refl; rhs = refl; pending = refl }, refl)

module _ {l : LinearMatrix} {a b : ℕ} (r : IsReady l) (la : a < l.matrix.rows)
    (lb : b < l.matrix.rows) (ne : a ≢ b) where
  pub change :
      IsUpdate l.matrix
        (xor_row_to_row l.matrix a b).0
        a
        (λ c. xor (row_bits l.matrix a c) (row_bits l.matrix b c))
  change = xor_row_to_row-IsUpdate l.matrix a b r.wf la lb ne

  -- Whatever is touched next, adding a row keeps the system.
  pub Keeps-added :
      (l' : LinearMatrix)
      → l'.matrix ≡ (xor_row_to_row l.matrix a b).0
      → l'.rhs ≡ l.rhs
      → All (λ i. i < l.matrix.rows) l'.update_rows
      → Keeps l l'
  Keeps-added l' em er pending = record {
    ready = record {
      wf = rw em (IsUpdate-IsWf r.wf la change);
      rhs_lt = rw (em, er, change.cols64) r.rhs_lt;
      pending = rw (em, change.rows) pending;
    };
    rows = rw em change.rows;
    cols64 = rw em change.cols64;
    rhs = er;
    solves = λ v s. rw em (xor_row_to_row-solves r.wf la lb ne v s);
    solved = λ v s. xor_row_to_row-solved r.wf la lb ne v (rw em at s);
  }
