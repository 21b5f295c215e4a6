-- ===== src/LinearMatrix/Sound.antt =====
-- The contract of `AddEquation` in src/linear_matrix.cpp: it ends, and decides the system together with
-- the equation that it is given.
use nldtool.Base.{
  ℕ, zero, suc, ◌+◌, ◌*◌, ◌≤◌, ◌<◌, ◌≡◌, arith, Bool, true, false, List, [], ◌∷◌, ◌++◌, length, inl,
  inr, ap₂, ◌∙◌, List-cases, some, length-append, xor, xor_self,
}
use nldtool.BitMatrix.{get_pivot, get_pivot_upper_bound}
use nldtool.BitMatrix.Equation.{Increasing}
use nldtool.BitMatrix.UpperBound.{get_pivot_upper_bound-le}
use nldtool.LinearMatrix.{LinearMatrix, enter_equation, add_equation, with_rhs, epsilon_gauss}
use nldtool.LinearMatrix.Measure.{measure, weight}
use nldtool.LinearMatrix.Solutions.{Satisfies, eq_value}
use nldtool.LinearMatrix.Keeps.{IsReady, IsAssignment}
use nldtool.LinearMatrix.Enter.{Enters}
use nldtool.LinearMatrix.Equation.{enter_equation-Enters}
use nldtool.LinearMatrix.Gauss.{Decides, epsilon_gauss-Decides}

-- Rounds of `EpsilonGauss` that are enough for an equation of `k + 1` columns.
abbrev pub enough_fuel : LinearMatrix → ℕ → ℕ
enough_fuel l k = 2 * (l.matrix.rows * (64 * l.matrix.cols64)) + length l.update_rows + k + 3

-- Among the assignments that satisfy the equation with right-hand side `c`, the final state has the
-- solutions of `l`; where `false` is returned there are none.
pub record Adds (l : LinearMatrix) (equation : List ℕ) (c : Bool) (result : LinearMatrix × Bool)
    : Type 0 where
  pub solves :
      (v : ℕ → Bool)
      → IsAssignment l v
      → eq_value v equation ≡ c
      → Satisfies v l.matrix
      → Satisfies v result.0.matrix
  pub solved :
      (v : ℕ → Bool)
      → IsAssignment l v
      → eq_value v equation ≡ c
      → Satisfies v result.0.matrix
      → Satisfies v l.matrix
  pub refutes :
      result.1 ≡ false
      → (v : ℕ → Bool) → IsAssignment l v
      → eq_value v equation ≡ c
      → ¬ Satisfies v l.matrix

weight-le : (n k : ℕ) (f : ℕ → ℕ) → weight n k f ≤ k * n
unfolding weight
weight-le n zero f = omega arith
weight-le n (suc k) f = omega (arith, weight-le n k f)

Increasing-append :
    (lo n rhs : ℕ) (equation : List ℕ)
    → rhs < n
    → lo ≤ rhs
    → Increasing lo rhs equation
    → Increasing lo n (equation ++ rhs ∷ [])
Increasing-append lo n rhs [] lt le s = (le, lt, tt)
Increasing-append lo n rhs (col ∷ equation) lt le s =
    (s.0, omega arith, Increasing-append (suc col) n rhs equation lt (omega arith) s.2)

Increasing-mono :
    (lo m n : ℕ) (equation : List ℕ) → m ≤ n → Increasing lo m equation → Increasing lo n equation
Increasing-mono lo m n [] le s = tt
Increasing-mono lo m n (col ∷ equation) le s =
    (s.0, omega arith, Increasing-mono (suc col) m n equation le s.2)

with_rhs-Increasing :
    (n rhs first : ℕ) (rest : List ℕ) (c : Bool)
    → rhs < n
    → Increasing 0 rhs (first ∷ rest)
    → Increasing 0 n (first ∷ with_rhs rhs c rest)
with_rhs-Increasing n rhs first rest true lt s =
    Increasing-append 0 n rhs (first ∷ rest) lt (omega arith) s
with_rhs-Increasing n rhs first rest false lt s =
    Increasing-mono 0 rhs n (first ∷ rest) (omega arith) s

eq_value-append :
    (v : ℕ → Bool) (rhs : ℕ) (equation : List ℕ)
    → v rhs ≡ true
    → eq_value v (equation ++ rhs ∷ []) ≡ xor (eq_value v equation) true
unfolding xor
eq_value-append v rhs [] one = ground arith
eq_value-append v rhs (col ∷ equation) one = ground (arith, eq_value-append v rhs equation one)

with_rhs-eq_value :
    (v : ℕ → Bool) (rhs first : ℕ) (rest : List ℕ) (c : Bool)
    → v rhs ≡ true
    → eq_value v (first ∷ rest) ≡ c
    → eq_value v (first ∷ with_rhs rhs c rest) ≡ false
with_rhs-eq_value v rhs first rest true one e =
    eq_value-append v rhs (first ∷ rest) one ∙ rw e (xor_self true)
with_rhs-eq_value v rhs first rest false one e = e

length-with_rhs-le :
    (rhs : ℕ) (c : Bool) (rest : List ℕ) → length (with_rhs rhs c rest) ≤ length rest + 1
length-with_rhs-le rhs true rest = omega (arith, length-append rest (rhs ∷ []))
length-with_rhs-le rhs false rest = omega arith

module _ (fuel : ℕ) (l : LinearMatrix) (first : ℕ) (rest : List ℕ) (c backtrack : Bool)
    (r : IsReady l) (s : Increasing 0 l.rhs (first ∷ rest)) where
  unfoldable pub full : List ℕ
  full = with_rhs l.rhs c rest

  unfoldable pub entered : LinearMatrix
  entered = enter_equation (get_pivot_upper_bound l.matrix first) l first full backtrack

  pub enters : Enters (first ∷ full) (length full + 1) l entered
  unfolding entered full
  enters =
      enter_equation-Enters first full (get_pivot_upper_bound l.matrix first) l backtrack r
        (get_pivot_upper_bound-le l.matrix first)
        (with_rhs-Increasing (64 * l.matrix.cols64) l.rhs first rest c r.rhs_lt s)

  Adds-entered :
      {result : LinearMatrix × Bool} → Decides entered result → Adds l (first ∷ rest) c result
  unfolding full
  Adds-entered d = record {
    solves = λ v a e sat. d.solves v (enters.solves v (holds v a e) sat);
    solved = λ v a e sat. enters.solved v (holds v a e) (d.solved v sat);
    refutes = λ h v a e sat. d.refutes h v (moved v a) (enters.solves v (holds v a e) sat);
  }
    where
      holds :
          (v : ℕ → Bool)
          → IsAssignment l v
          → eq_value v (first ∷ rest) ≡ c
          → eq_value v (first ∷ full) ≡ false
      holds v a e = with_rhs-eq_value v l.rhs first rest c a.one e

      moved : (v : ℕ → Bool) → IsAssignment l v → IsAssignment entered v
      moved v a = record {
        one = rw enters.rhs a.one;
        zeros = λ k lt. a.zeros k (rw enters.rhs at lt);
      }

  pub entered-measure : enough_fuel l (length rest) ≤ fuel → measure entered < fuel
  unfolding measure full
  entered-measure h =
      let w =
        weight-le (64 * entered.matrix.cols64) entered.matrix.rows (get_pivot entered.matrix) in
      let e : entered.matrix.rows * (64 * entered.matrix.cols64)
          ≡ l.matrix.rows * (64 * l.matrix.cols64) =
        ap₂ (λ a b. a * (64 * b)) enters.rows enters.cols64 in
      omega (arith, enters.pending, length-with_rhs-le l.rhs c rest)

  pub settled :
      entered.update_rows ≡ []
      → add_equation fuel l (first ∷ rest) c backtrack ≡ some (entered, true)
  unfolding add_equation entered full
  settled e = ground arith

  pub unsettled :
      (row : ℕ) (rows : List ℕ)
      → entered.update_rows ≡ row ∷ rows
      → add_equation fuel l (first ∷ rest) c backtrack ≡ epsilon_gauss fuel backtrack entered
  unfolding add_equation entered full
  unsettled row rows e = ground arith

  already : Decides entered (entered, true)
  already = record { solves = λ v s. s; solved = λ v s. s; refutes = λ h. cc }

-- For a ready system, a not empty equation of strictly increasing columns below RHS and enough fuel,
-- `AddEquation` returns. Among the assignments that satisfy the equation with right-hand side `c` the final
-- state has the solutions of the first one, and where `false` is returned there are none.
pub add_equation-Adds :
    (fuel : ℕ) (l : LinearMatrix) (first : ℕ) (rest : List ℕ) (c backtrack : Bool)
    → IsReady l
    → Increasing 0 l.rhs (first ∷ rest)
    → enough_fuel l (length rest) ≤ fuel
    → (result : LinearMatrix × Bool) × (add_equation fuel l (first ∷ rest) c backtrack
        ≡ some result)
      × Adds l (first ∷ rest) c result
add_equation-Adds fuel l first rest c backtrack r s h =
    let l1 = entered fuel l first rest c backtrack r s in
    elim (List-cases l1.update_rows) [
      | inl e ↦ (
        (l1, true),
        settled fuel l first rest c backtrack r s e,
        Adds-entered fuel l first rest c backtrack r s (already fuel l first rest c backtrack r s),
      )
      | inr (row, rows, e) ↦
          let g =
            epsilon_gauss-Decides fuel backtrack l1 (enters fuel l first rest c backtrack r s).ready
              (entered-measure fuel l first rest c backtrack r s h) in
          (
            g.0,
            unsettled fuel l first rest c backtrack r s row rows e ∙ g.1,
            Adds-entered fuel l first rest c backtrack r s g.2,
          )
    ]
