-- ===== src/LinearMatrix/Keeps.antt =====
-- What the operations of src/linear_matrix.cpp keep: the invariant of the matrix and the solutions of the
-- system. Adding one row to another keeps both.

use nldtool.Base.{ℕ, ◌*◌, ◌<◌, ◌≡◌, ◌≢◌, refl, Bool, true, false, All, sym, ◌∙◌, xor}
use nldtool.BitMatrix.{BitMatrix, get_pivot, get_phys_row_index, xor_row_to_row}
use nldtool.BitMatrix.Invariant.{IsWf, IsUpdate, row_bits, row_bits-block}
use nldtool.BitMatrix.Update.{xor_row_to_row-IsUpdate}
use nldtool.LinearMatrix.{LinearMatrix}
use nldtool.LinearMatrix.Solutions.{
  Satisfies, value, row_value, row_value_ext, value-IsUpdate, value-IsUpdate_ne,
  contradiction_unsat,
}

pub record IsReady (l : LinearMatrix) : Type 0 where
  pub wf : IsWf l.matrix
  pub rhs_lt : l.rhs < 64 * l.matrix.cols64
  pub pending : All (λ i. i < l.matrix.rows) l.update_rows

-- `l'` is ready and has the solutions of `l`.
pub record Keeps (l l' : LinearMatrix) : Type 0 where
  pub ready : IsReady l'
  pub rows : l'.matrix.rows ≡ l.matrix.rows
  pub cols64 : l'.matrix.cols64 ≡ l.matrix.cols64
  pub rhs : l'.rhs ≡ l.rhs
  pub solves : (v : ℕ → Bool) → Satisfies v l.matrix → Satisfies v l'.matrix
  pub solved : (v : ℕ → Bool) → Satisfies v l'.matrix → Satisfies v l.matrix

pub Keeps-refl : (l : LinearMatrix) → IsReady l → Keeps l l
Keeps-refl l r = record {
  ready = r;
  rows = refl;
  cols64 = refl;
  rhs = refl;
  solves = λ v s. s;
  solved = λ v s. s;
}

pub Keeps-trans : {l l' l'' : LinearMatrix} → Keeps l l' → Keeps l' l'' → Keeps l l''
Keeps-trans a b = record {
  ready = b.ready;
  rows = b.rows ∙ a.rows;
  cols64 = b.cols64 ∙ a.cols64;
  rhs = b.rhs ∙ a.rhs;
  solves = λ v s. b.solves v (a.solves v s);
  solved = λ v s. a.solved v (b.solved v s);
}

-- Some row says that zero is one.
pub record Contradicts (l : LinearMatrix) : Type 0 where
  pub row : ℕ
  pub in_range : row < l.matrix.rows
  pub at_rhs : get_pivot l.matrix row ≡ l.rhs

-- An assignment gives the column RHS the value true, and the columns behind it false.
pub record IsAssignment (l : LinearMatrix) (v : ℕ → Bool) : Type 0 where
  pub one : v l.rhs ≡ true
  pub zeros : (c : ℕ) → l.rhs < c → v c ≡ false

pub Contradicts-unsat :
    {l : LinearMatrix} {v : ℕ → Bool}
    → IsReady l
    → Contradicts l
    → IsAssignment l v
    → ¬ Satisfies v l.matrix
Contradicts-unsat {l} {v} r c a =
    contradiction_unsat l.matrix c.row l.rhs v r.wf c.in_range r.rhs_lt c.at_rhs a.one a.zeros

-- The solutions when row `b` is added to another row `a`.
module _ {m : BitMatrix} {a b : ℕ} (w : IsWf m) (la : a < m.rows) (lb : b < m.rows)
    (ne : a ≢ b) where
  added : IsUpdate m (xor_row_to_row m a b).0 a (λ c. xor (row_bits m a c) (row_bits m b c))
  added = xor_row_to_row-IsUpdate m a b w la lb ne

  sum_of_b :
      (v : ℕ → Bool)
      → row_value v (64 * m.cols64) (row_bits m b) ≡ value v m (get_phys_row_index m b)
  sum_of_b v = row_value_ext v (64 * m.cols64) _ _ (λ c lt. row_bits-block m b c w lb)

  -- `XorRowtoRow` keeps the solutions.
  pub xor_row_to_row-solves : (v : ℕ → Bool) → Satisfies v m → Satisfies v (xor_row_to_row m a b).0
  xor_row_to_row-solves v s q =
      value-IsUpdate (row_bits m b) w la added v (sum_of_b v ∙ s _) q ∙ s q

  pub xor_row_to_row-solved : (v : ℕ → Bool) → Satisfies v (xor_row_to_row m a b).0 → Satisfies v m
  xor_row_to_row-solved v s q =
      sym (value-IsUpdate (row_bits m b) w la added v (sum_of_b v ∙ old) q) ∙ s q
    where
      old : value v m (get_phys_row_index m b) ≡ false
      old =
          sym (
            value-IsUpdate_ne (row_bits m b) w la added v (get_phys_row_index m b)
              (λ e. ne (w.phys_inj a b la lb e)))
          ∙ s (get_phys_row_index m b)
