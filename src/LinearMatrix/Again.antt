-- ===== src/LinearMatrix/Again.antt =====
-- `AddEquation` of src/linear_matrix.cpp leaves a system to which equations can be added again.
use nldtool.Base.{
  ℕ, zero, suc, ◌*◌, ◌≤◌, ◌<◌, ◌≡◌, refl, arith, sym, ◌∙◌, subst, Bool, true, false, List, [], ◌∷◌,
  All, inl, inr, List-cases, Bool-cases, some, length,
}
use nldtool.BitMatrix.{get_pivot_upper_bound}
use nldtool.BitMatrix.Equation.{Increasing}
use nldtool.BitMatrix.UpperBound.{get_pivot_upper_bound-le}
use nldtool.BitMatrix.Sort.{sort_by_pivot, sort_by_pivot-SameData}
use nldtool.BitMatrix.Sort.Weights.{InOrder}
use nldtool.BitMatrix.Sort.Wf.{sort_by_pivot-IsWf}
use nldtool.LinearMatrix.{
  LinearMatrix, gauss_row, epsilon_gauss, sort_by_pivot_logged, add_equation, with_rhs,
}
use nldtool.LinearMatrix.Measure.{measure}
use nldtool.LinearMatrix.Keeps.{IsReady}
use nldtool.LinearMatrix.Gauss.{
  gauss_row-RowDone, epsilon_gauss-nil, epsilon_gauss-cons, taken, taken-measure,
}
use nldtool.LinearMatrix.Listed.{gauss_row-Listed, enter_equation-Listed}
use nldtool.LinearMatrix.Sound

-- What `AddEquation` asks of a system: it is ready, and the rows whose pivot has changed are listed in order.
abbrev pub IsOpen : LinearMatrix → Type 0
IsOpen l = IsReady l × InOrder l.matrix.rows 0 l.update_pivot

sorted-IsOpen :
    (l : LinearMatrix) (log : Bool)
    → IsOpen l
    → l.update_rows ≡ []
    → IsOpen (sort_by_pivot_logged l log)
unfolding sort_by_pivot_logged InOrder
sorted-IsOpen l log (r, listed) e =
    let d = sort_by_pivot-SameData l.matrix l.update_pivot in
    let m' = (sort_by_pivot l.matrix l.update_pivot).0 in
    let rhs : l.rhs < 64 * m'.cols64 = omega (arith, d.cols64, r.rhs_lt) in
    let pending : All (λ i. i < m'.rows) l.update_rows =
      subst (λ rows. All (λ i. i < m'.rows) rows) (sym e) tt in
    let wf = sort_by_pivot-IsWf l.matrix l.update_pivot r.wf listed in
    elim (Bool-cases log) [
      | inl t ↦ rw t (record { wf = wf; rhs_lt = rhs; pending = pending }, tt)
      | inr f ↦ rw f (record { wf = wf; rhs_lt = rhs; pending = pending }, tt)
    ]

-- With more fuel than its measure, `EpsilonGauss` leaves an open system.
epsilon_gauss-IsOpen :
    (fuel : ℕ) (backtrack : Bool) (l : LinearMatrix)
    → IsOpen l
    → measure l < fuel
    → (result : LinearMatrix × Bool) × (epsilon_gauss fuel backtrack l ≡ some result)
      × IsOpen result.0
unfolding epsilon_gauss
epsilon_gauss-IsOpen zero backtrack l o lt = absurd (omega arith)
epsilon_gauss-IsOpen (suc fuel) backtrack l (r, listed) lt = elim (List-cases l.update_rows) [
  | inl e ↦ (
    (sort_by_pivot_logged l backtrack, true),
    epsilon_gauss-nil fuel backtrack l e,
    sorted-IsOpen l backtrack (r, listed) e,
  )
  | inr (row, rest, e) ↦
      let l1 = taken l rest in
      let pending : All (λ i. i < l.matrix.rows) (row ∷ rest) = rw e at r.pending in
      let r1 : IsReady l1 = record { wf = r.wf; rhs_lt = r.rhs_lt; pending = pending.1 } in
      let d = gauss_row-RowDone row backtrack l1 r1 pending.0 in
      let done = gauss_row row backtrack l1 in
      let (rows, listed') = gauss_row-Listed l.matrix.rows row backtrack l1 (refl, listed) in
      let after : IsOpen done.0 =
        (d.keeps.ready, subst (λ n. InOrder n 0 done.0.update_pivot) (sym rows) listed') in
      let unfold_step = epsilon_gauss-cons fuel backtrack l row rest e in
      elim (Bool-cases done.1) [
        | inl on ↦
            let (result, found, still) =
              epsilon_gauss-IsOpen fuel backtrack done.0 after
                (omega (arith, d.less, taken-measure l row rest e, lt)) in
            (result, unfold_step ∙ rw on found, still)
        | inr off ↦ ((done.0, false), unfold_step ∙ rw off, after)
      ]
]

-- For an open system, a not empty equation of strictly increasing columns below RHS and enough fuel, `AddEquation`
-- returns, and it leaves an open system, so that the next equation can be added.
pub add_equation-IsOpen :
    (fuel : ℕ) (l : LinearMatrix) (first : ℕ) (rest : List ℕ) (c backtrack : Bool)
    → IsOpen l
    → Increasing 0 l.rhs (first ∷ rest)
    → Sound.enough_fuel l (length rest) ≤ fuel
    → (result : LinearMatrix × Bool) × (add_equation fuel l (first ∷ rest) c backtrack
        ≡ some result)
      × IsOpen result.0
unfolding Sound.entered Sound.full
add_equation-IsOpen fuel l first rest c backtrack (r, listed) s h =
    let l1 = Sound.entered fuel l first rest c backtrack r s in
    let enters = Sound.enters fuel l first rest c backtrack r s in
    let (rows, listed') =
      enter_equation-Listed l.matrix.rows (get_pivot_upper_bound l.matrix first) l first
        (with_rhs l.rhs c rest) backtrack (get_pivot_upper_bound-le l.matrix first)
        (refl, listed) in
    let o : IsOpen l1 =
      (enters.ready, subst (λ n. InOrder n 0 l1.update_pivot) (sym rows) listed') in
    elim (List-cases l1.update_rows) [
      | inl e ↦ ((l1, true), Sound.settled fuel l first rest c backtrack r s e, o)
      | inr (row, rows', e) ↦
          let (result, found, still) =
            epsilon_gauss-IsOpen fuel backtrack l1 o
              (Sound.entered-measure fuel l first rest c backtrack r s h) in
          (result, Sound.unsettled fuel l first rest c backtrack r s row rows' e ∙ found, still)
    ]
