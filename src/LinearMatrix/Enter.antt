-- ===== src/LinearMatrix/Enter.antt =====
-- `AddEquation` of src/linear_matrix.cpp up to `EpsilonGauss`: the rows are changed by multiples of the
-- equation, so an assignment that satisfies the equation satisfies as much as before.

use nldtool.Base.{
  ℕ, ◌+◌, ◌*◌, ◌≤◌, ◌<◌, ◌≡◌, refl, arith, Bool, true, false, List, ◌∷◌, length, sym, ◌∙◌, xor,
}
use nldtool.BitMatrix.{xor_row}
use nldtool.BitMatrix.Invariant.{IsUpdate, row_bits, IsUpdate-IsWf}
use nldtool.BitMatrix.Equation.{eq_bits, Increasing, xor_row-IsUpdate}
use nldtool.LinearMatrix.{LinearMatrix, xor_row_logged}
use nldtool.LinearMatrix.Solutions.{Satisfies, eq_value, row_value-eq_bits, value, value-IsUpdate}
use nldtool.LinearMatrix.Keeps.{IsReady, Keeps, Keeps-refl}

-- `l'` has the solutions of `l` among the assignments that satisfy the equation, and at most `k` more
-- rows to update.
pub record Enters (equation : List ℕ) (k : ℕ) (l l' : LinearMatrix) : Type 0 where
  pub ready : IsReady l'
  pub rows : l'.matrix.rows ≡ l.matrix.rows
  pub cols64 : l'.matrix.cols64 ≡ l.matrix.cols64
  pub rhs : l'.rhs ≡ l.rhs
  pub pending : length l'.update_rows ≤ length l.update_rows + k
  pub solves :
      (v : ℕ → Bool) → eq_value v equation ≡ false → Satisfies v l.matrix → Satisfies v l'.matrix
  pub solved :
      (v : ℕ → Bool) → eq_value v equation ≡ false → Satisfies v l'.matrix → Satisfies v l.matrix

module _ {equation : List ℕ} where
  pub Enters-of-Keeps :
      {l l' : LinearMatrix} (k : ℕ)
      → Keeps l l'
      → length l'.update_rows ≤ length l.update_rows + k
      → Enters equation k l l'
  Enters-of-Keeps k h le = record {
    ready = h.ready;
    rows = h.rows;
    cols64 = h.cols64;
    rhs = h.rhs;
    pending = le;
    solves = λ v _ s. h.solves v s;
    solved = λ v _ s. h.solved v s;
  }

  pub Enters-refl : (k : ℕ) (l : LinearMatrix) → IsReady l → Enters equation k l l
  Enters-refl k l r = Enters-of-Keeps k (Keeps-refl l r) (omega arith)

  pub Enters-trans :
      {l l' l'' : LinearMatrix} (j k n : ℕ)
      → j + k ≤ n
      → Enters equation j l l'
      → Enters equation k l' l''
      → Enters equation n l l''
  Enters-trans j k n le a b = record {
    ready = b.ready;
    rows = b.rows ∙ a.rows;
    cols64 = b.cols64 ∙ a.cols64;
    rhs = b.rhs ∙ a.rhs;
    pending = omega (arith, a.pending, b.pending);
    solves = λ v e s. b.solves v e (a.solves v e s);
    solved = λ v e s. a.solved v e (b.solved v e s);
  }

-- The part of `l'` that the laws below speak of, after `XorRow(row, equation)`.
record IsXored (l l' : LinearMatrix) (row : ℕ) (equation : List ℕ) : Type 0 where
  matrix : l'.matrix ≡ (xor_row l.matrix row equation).0
  rhs : l'.rhs ≡ l.rhs
  pending : l'.update_rows ≡ l.update_rows

xor_row_logged-IsXored :
    (l : LinearMatrix) (row : ℕ) (equation : List ℕ) (log : Bool)
    → IsXored l (xor_row_logged l row equation log) row equation
unfolding xor_row_logged
xor_row_logged-IsXored l row equation true = record { matrix = refl; rhs = refl; pending = refl }
xor_row_logged-IsXored l row equation false = record { matrix = refl; rhs = refl; pending = refl }

pub xor_row_logged-Enters :
    (l : LinearMatrix) (row first : ℕ) (rest : List ℕ) (log : Bool)
    → IsReady l
    → row < l.matrix.rows
    → Increasing 0 (64 * l.matrix.cols64) (first ∷ rest)
    → Enters (first ∷ rest) 0 l (xor_row_logged l row (first ∷ rest) log)
xor_row_logged-Enters l row first rest log r lt s = record {
  ready = record {
    wf = rw x.matrix (IsUpdate-IsWf r.wf lt u);
    rhs_lt = rw (x.matrix, x.rhs, u.cols64) r.rhs_lt;
    pending = rw (x.matrix, x.pending, u.rows) r.pending;
  };
  rows = rw x.matrix u.rows;
  cols64 = rw x.matrix u.cols64;
  rhs = x.rhs;
  pending = rw x.pending (omega arith);
  solves = λ v e sat. rw x.matrix (λ q. unchanged v e q ∙ sat q);
  solved = λ v e sat q. sym (unchanged v e q) ∙ (rw x.matrix at sat) q;
}
  where
    x : IsXored l (xor_row_logged l row (first ∷ rest) log) row (first ∷ rest)
    x = xor_row_logged-IsXored l row (first ∷ rest) log

    u :
        IsUpdate l.matrix
          (xor_row l.matrix row (first ∷ rest)).0
          row
          (λ c. xor (row_bits l.matrix row c) (eq_bits (first ∷ rest) c))
    u = xor_row-IsUpdate l.matrix row first rest r.wf lt s

    unchanged :
        (v : ℕ → Bool)
        → eq_value v (first ∷ rest) ≡ false
        → (q : ℕ) → value v (xor_row l.matrix row (first ∷ rest)).0 q ≡ value v l.matrix q
    unchanged v e q =
        value-IsUpdate (eq_bits (first ∷ rest)) r.wf lt u v
          (row_value-eq_bits v 0 (64 * l.matrix.cols64) (first ∷ rest) s ∙ e) q
