-- ===== src/LinearMatrix/Gauss.antt =====
-- `EpsilonGauss` of src/linear_matrix.cpp: it ends, keeps the solutions of the system, and reports a
-- contradiction only where there is none.
use nldtool.Base.{
  ℕ, zero, suc, ◌≤◌, ◌<◌, ◌≡◌, arith, Bool, true, false, List, [], ◌∷◌, ◌==◌, if◌then◌else◌, All,
  inl, inr, ◌∙◌, Bool-cases, List-cases, some,
}
use native.Mathlib.Decide.{ℕ_discrete}
use nldtool.BitMatrix.{BitMatrix, get_pivot, nopivot}
use nldtool.BitMatrix.Sort.{sort_by_pivot-SameData, SameData}
use nldtool.LinearMatrix.{
  LinearMatrix, is_contradiction, gauss_row, epsilon_gauss, sort_by_pivot_logged,
}
use nldtool.LinearMatrix.Measure.{measure}
use nldtool.LinearMatrix.Solutions.{Satisfies}
use nldtool.LinearMatrix.Keeps.{
  IsReady, Keeps, Keeps-refl, Contradicts, Contradicts-unsat, IsAssignment,
}
use nldtool.LinearMatrix.Eliminate.{eliminate-Eliminates}

-- The final state has the solutions of `l`; where `false` is returned there are none.
pub record Decides (l : LinearMatrix) (result : LinearMatrix × Bool) : Type 0 where
  pub solves : (v : ℕ → Bool) → Satisfies v l.matrix → Satisfies v result.0.matrix
  pub solved : (v : ℕ → Bool) → Satisfies v result.0.matrix → Satisfies v l.matrix
  pub refutes : result.1 ≡ false → (v : ℕ → Bool) → IsAssignment l v → ¬ Satisfies v l.matrix

sorted_matrix :
    (l : LinearMatrix) (log : Bool) → SameData l.matrix (sort_by_pivot_logged l log).matrix
unfolding sort_by_pivot_logged
sorted_matrix l true = sort_by_pivot-SameData l.matrix l.update_pivot
sorted_matrix l false = sort_by_pivot-SameData l.matrix l.update_pivot

Satisfies-SameData :
    {m m' : BitMatrix} (v : ℕ → Bool) → SameData m m' → Satisfies v m → Satisfies v m'
Satisfies-SameData v d s p = rw (d.cols64, d.words) (s p)

Satisfies-SameData' :
    {m m' : BitMatrix} (v : ℕ → Bool) → SameData m m' → Satisfies v m' → Satisfies v m
Satisfies-SameData' v d s p = rw (← d.cols64, ← d.words) (s p)

-- One row taken out of `update_rows_`.
pub record RowDone (l : LinearMatrix) (result : LinearMatrix × Bool) : Type 0 where
  pub keeps : Keeps l result.0
  pub less : measure result.0 ≤ measure l
  pub stops : result.1 ≡ false → Contradicts result.0

pub gauss_row-RowDone :
    (row : ℕ) (backtrack : Bool) (l : LinearMatrix)
    → IsReady l
    → row < l.matrix.rows
    → RowDone l (gauss_row row backtrack l)
unfolding gauss_row
gauss_row-RowDone row backtrack l r lt = elim (ℕ_discrete (get_pivot l.matrix row) l.rhs) [
  | yes e ↦
      let test : is_contradiction l row ≡ true = ground arith in
      rw test (record {
        keeps = Keeps-refl l r;
        less = omega arith;
        stops = λ _. record { row = row; in_range = lt; at_rhs = e };
      })
  | no ne ↦
      let test : is_contradiction l row ≡ false = ground arith in
      elim (ℕ_discrete (get_pivot l.matrix row) (nopivot l.matrix)) [
        | yes e ↦
            let zero_row : (get_pivot l.matrix row == nopivot l.matrix) ≡ true = ground arith in
            rw (test, zero_row)
              (record { keeps = Keeps-refl l r; less = omega arith; stops = λ h. cc })
        | no ne' ↦
            let zero_row : (get_pivot l.matrix row == nopivot l.matrix) ≡ false = ground arith in
            let row_pivot = r.wf.pivots row lt in
            let d =
              eliminate-Eliminates row backtrack l.matrix.rows 0 l r (omega arith) lt
                (omega (arith, row_pivot.bounded)) in
            rw (test, zero_row) (record { keeps = d.keeps; less = d.less; stops = d.stops })
      ]
]

IsAssignment-Keeps :
    {l l' : LinearMatrix} (v : ℕ → Bool) → Keeps l l' → IsAssignment l v → IsAssignment l' v
IsAssignment-Keeps v k a = record {
  one = rw k.rhs a.one;
  zeros = λ c lt. a.zeros c (rw k.rhs at lt);
}

pub Decides-after :
    (l l' : LinearMatrix) {result : LinearMatrix × Bool}
    → Keeps l l'
    → Decides l' result
    → Decides l result
Decides-after l l' k d = record {
  solves = λ v s. d.solves v (k.solves v s);
  solved = λ v s. k.solved v (d.solved v s);
  refutes = λ h v a s. d.refutes h v (IsAssignment-Keeps v k a) (k.solves v s);
}

pub epsilon_gauss-nil :
    (fuel : ℕ) (backtrack : Bool) (l : LinearMatrix)
    → l.update_rows ≡ []
    → epsilon_gauss (suc fuel) backtrack l ≡ some (sort_by_pivot_logged l backtrack, true)
unfolding epsilon_gauss
epsilon_gauss-nil fuel backtrack l e = ground arith

-- The state with `row` taken out of `update_rows_`.
abbrev pub taken : LinearMatrix → List ℕ → LinearMatrix
taken l rest = record l { update_rows = rest }

pub epsilon_gauss-cons :
    (fuel : ℕ) (backtrack : Bool) (l : LinearMatrix) (row : ℕ) (rest : List ℕ)
    → l.update_rows ≡ row ∷ rest
    → epsilon_gauss (suc fuel) backtrack l ≡ (
        if (gauss_row row backtrack (taken l rest)).1
        then epsilon_gauss fuel backtrack (gauss_row row backtrack (taken l rest)).0
        else some ((gauss_row row backtrack (taken l rest)).0, false))
unfolding epsilon_gauss
epsilon_gauss-cons fuel backtrack l row rest e = ground arith

Keeps-taken :
    (l : LinearMatrix) (rest : List ℕ) {l' : LinearMatrix} → Keeps (taken l rest) l' → Keeps l l'
Keeps-taken l rest k = record {
  ready = k.ready;
  rows = k.rows;
  cols64 = k.cols64;
  rhs = k.rhs;
  solves = k.solves;
  solved = k.solved;
}

pub taken-measure :
    (l : LinearMatrix) (row : ℕ) (rest : List ℕ)
    → l.update_rows ≡ row ∷ rest
    → suc (measure (taken l rest)) ≡ measure l
unfolding measure
taken-measure l row rest e = rw e (omega arith)

-- For a ready system and more fuel than its measure, `EpsilonGauss` returns. The final state has the solutions of
-- the first one, and where `false` is returned no assignment is a solution.
pub epsilon_gauss-Decides :
    (fuel : ℕ) (backtrack : Bool) (l : LinearMatrix)
    → IsReady l
    → measure l < fuel
    → (result : LinearMatrix × Bool) × (epsilon_gauss fuel backtrack l ≡ some result)
      × Decides l result
unfolding epsilon_gauss
epsilon_gauss-Decides zero backtrack l r lt = absurd (omega arith)
epsilon_gauss-Decides (suc fuel) backtrack l r lt = elim (List-cases l.update_rows) [
  | inl e ↦
      let d = sorted_matrix l backtrack in
      (
        (sort_by_pivot_logged l backtrack, true),
        epsilon_gauss-nil fuel backtrack l e,
        record {
          solves = λ v s. Satisfies-SameData v d s;
          solved = λ v s. Satisfies-SameData' v d s;
          refutes = λ h. cc;
        },
      )
  | inr (row, rest, e) ↦
      let l1 = taken l rest in
      let pending : All (λ i. i < l.matrix.rows) (row ∷ rest) = rw e at r.pending in
      let r1 : IsReady l1 = record { wf = r.wf; rhs_lt = r.rhs_lt; pending = pending.1 } in
      let d = gauss_row-RowDone row backtrack l1 r1 pending.0 in
      let done = gauss_row row backtrack l1 in
      let keeps = Keeps-taken l rest d.keeps in
      let unfold_step = epsilon_gauss-cons fuel backtrack l row rest e in
      elim (Bool-cases done.1) [
        | inl on ↦
            let more =
              epsilon_gauss-Decides fuel backtrack done.0 d.keeps.ready
                (omega (arith, d.less, taken-measure l row rest e)) in
            (more.0, unfold_step ∙ rw on more.1, Decides-after l done.0 keeps more.2)
        | inr off ↦ (
          (done.0, false),
          unfold_step ∙ rw off,
          record {
            solves = keeps.solves;
            solved = keeps.solved;
            refutes = λ _ v a s.
                Contradicts-unsat d.keeps.ready (d.stops off) (IsAssignment-Keeps v keeps a)
                  (keeps.solves v s);
          },
        )
      ]
]
