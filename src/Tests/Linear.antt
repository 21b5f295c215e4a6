-- ===== src/Tests/Linear.antt =====
-- src/linear_matrix.cpp: two equations over four variables, and a third one added.
use nldtool.Base.{◌≡◌, arith, true, Bool, [], ◌∷◌, some}
use nldtool.BitMatrix.{bit_matrix, xor_bit}
use nldtool.LinearMatrix.{
  LinearMatrix, linear_matrix, init, init_bit, add_equation, epsilon_gauss, xor_row_logged,
  xor_row_to_row_logged,
}
use nldtool.LinearMatrix.Keeps.{IsReady}
use nldtool.LinearMatrix.Initial.{linear_matrix-IsReady, init_bit-IsReady}
use nldtool.LinearMatrix.Measure.{measure, weight}
use nldtool.LinearMatrix.Gauss.{Decides, epsilon_gauss-Decides}
use nldtool.LinearMatrix.Undo.{undo, fix_changes}
use nldtool.LinearMatrix.Restore.{SameRows, undo-xor_row_to_row, undo-xor_row}
use nldtool.LinearMatrix.Again.{IsOpen, add_equation-IsOpen}
use nldtool.LinearMatrix.Sound.{Adds, add_equation-Adds}

-- x0 + x2 = 0 and x1 + x2 = 1, over x0, …, x3.
abbrev pub system : LinearMatrix
system =
    init_bit (init_bit (init_bit (init_bit (init_bit (linear_matrix 2 4) 0 0) 0 2) 1 1) 1 2) 1 67

pub system-IsReady : IsReady system
unfolding linear_matrix init bit_matrix init_bit xor_bit
system-IsReady =
    let r0 = linear_matrix-IsReady 2 4 in
    let r1 = init_bit-IsReady _ 0 0 r0 (omega arith) (omega arith) in
    let r2 = init_bit-IsReady _ 0 2 r1 (omega arith) (omega arith) in
    let r3 = init_bit-IsReady _ 1 1 r2 (omega arith) (omega arith) in
    let r4 = init_bit-IsReady _ 1 2 r3 (omega arith) (omega arith) in
    init_bit-IsReady _ 1 67 r4 (omega arith) (omega arith)

-- The theorem at x2 = 1.
add_equation-Adds_example :
    (result : LinearMatrix × Bool) × (add_equation 1000 system (2 ∷ []) true true ≡ some result)
    × Adds system (2 ∷ []) true result
unfolding linear_matrix init bit_matrix init_bit xor_bit
add_equation-Adds_example =
    add_equation-Adds 1000 system 2 [] true true system-IsReady (omega arith) (omega arith)

add_equation-IsOpen_example :
    (result : LinearMatrix × Bool) × (add_equation 1000 system (2 ∷ []) true true ≡ some result)
    × IsOpen result.0
unfolding linear_matrix init bit_matrix init_bit xor_bit nldtool.BitMatrix.Sort.Weights.InOrder
add_equation-IsOpen_example =
    add_equation-IsOpen 1000 system 2 [] true true (system-IsReady, tt) (omega arith) (omega arith)

-- Both rows wait for `EpsilonGauss`.
abbrev waiting : LinearMatrix
waiting = record system { update_rows = 0 ∷ 1 ∷ [] }

waiting-IsReady : IsReady waiting
unfolding linear_matrix init bit_matrix init_bit xor_bit
waiting-IsReady = record {
  wf = system-IsReady.wf;
  rhs_lt = system-IsReady.rhs_lt;
  pending = (omega arith, (omega arith, tt));
}

epsilon_gauss-Decides_example :
    (result : LinearMatrix × Bool) × (epsilon_gauss 1000 true waiting ≡ some result)
    × Decides waiting result
unfolding linear_matrix init bit_matrix init_bit xor_bit measure weight
epsilon_gauss-Decides_example =
    epsilon_gauss-Decides 1000 true waiting waiting-IsReady (omega arith)

undo-xor_row_to_row_example :
    SameRows system.matrix (undo (xor_row_to_row_logged (fix_changes system) 0 1 true).0).matrix
unfolding linear_matrix init bit_matrix init_bit xor_bit
undo-xor_row_to_row_example =
    undo-xor_row_to_row system 0 1 system-IsReady.wf (omega arith) (omega arith) (omega arith)

undo-xor_row_example :
    SameRows system.matrix (undo (xor_row_logged (fix_changes system) 1 (1 ∷ 2 ∷ []) true)).matrix
unfolding linear_matrix init bit_matrix init_bit xor_bit
undo-xor_row_example =
    undo-xor_row system 1 1 (2 ∷ []) system-IsReady.wf (omega arith)
      (omega arith, omega arith, (omega arith, omega arith, tt))
