-- ===== src/Tests/Matrix.antt =====
-- src/bit_matrix.cpp, src/bit_matrix.h and src/utils.h at the matrix of the system in Linear.
use nldtool.Base.{
  ltb, ◌&&◌, ◌*◌, ℕ, zero, suc, ◌^◌, ◌≡◌, ◌≤◌, ◌<◌, refl, arith, false, [], ◌∷◌, xor,
}
use nldtool.Bits.{bit}
use nldtool.Utils.{least_significant_set_bitmask}
use nldtool.Utils.Lsb.{IsLowest, lsb-eq-two_pow}
use nldtool.BitMatrix.{
  BitMatrix, bit_matrix, xor_bit, xor_row, xor_row_to_row, pivot_loop, get_pivot_upper_bound,
  get_pivot, get_bit,
}
use nldtool.BitMatrix.Blocks.{col_bit}
use nldtool.BitMatrix.Pivot.{IsPivot, pivot_loop-IsPivot}
use nldtool.BitMatrix.Invariant.{IsWf, IsUpdate, row_bits}
use nldtool.BitMatrix.Update.{xor_row_to_row-IsUpdate}
use nldtool.BitMatrix.Equation.{Increasing, eq_bits, xor_row-IsUpdate}
use nldtool.BitMatrix.UpperBound.{Splits, get_pivot_upper_bound-Splits}
use nldtool.BitMatrix.Getters.{listed, get_bits_set, listed-get_bits_set}
use nldtool.BitMatrix.Sort.{sort_by_pivot}
use nldtool.BitMatrix.Sort.Weights.{InOrder}
use nldtool.BitMatrix.Sort.Wf.{sort_by_pivot-IsWf}
use nldtool.LinearMatrix.{linear_matrix, init, init_bit}
use nldtool.Tests.Linear.{system, system-IsReady}

abbrev matrix : BitMatrix
matrix = system.matrix

xor_row_to_row-IsUpdate_example :
    IsUpdate matrix
      (xor_row_to_row matrix 0 1).0
      0
      (λ c. xor (row_bits matrix 0 c) (row_bits matrix 1 c))
unfolding linear_matrix init bit_matrix init_bit xor_bit
xor_row_to_row-IsUpdate_example =
    xor_row_to_row-IsUpdate matrix 0 1 system-IsReady.wf (omega arith) (omega arith) (omega arith)

xor_row-IsUpdate_example :
    IsUpdate matrix
      (xor_row matrix 1 (1 ∷ 2 ∷ [])).0
      1
      (λ c. xor (row_bits matrix 1 c) (eq_bits (1 ∷ 2 ∷ []) c))
unfolding linear_matrix init bit_matrix init_bit xor_bit
xor_row-IsUpdate_example =
    xor_row-IsUpdate matrix 1 1 (2 ∷ []) system-IsReady.wf (omega arith)
      (omega arith, omega arith, (omega arith, omega arith, tt))

pivot_loop-IsPivot_example :
    IsPivot 128 (col_bit matrix.words 2) (pivot_loop matrix.words 2 128 2 0)
pivot_loop-IsPivot_example = pivot_loop-IsPivot matrix.words 2 2 system-IsReady.wf.words64

increasing : (i j : ℕ) → i ≤ j → j < matrix.rows → get_pivot matrix i ≤ get_pivot matrix j
unfolding linear_matrix init bit_matrix init_bit xor_bit
increasing zero zero le lt = omega arith
increasing zero (suc zero) le lt = omega arith
increasing (suc zero) (suc zero) le lt = omega arith
increasing i (suc (suc j)) le lt = absurd (omega arith)
increasing (suc i) zero le lt = absurd (omega arith)
increasing (suc (suc i)) (suc zero) le lt = absurd (omega arith)

get_pivot_upper_bound-Splits_example : Splits matrix 0 increasing (get_pivot_upper_bound matrix 0)
get_pivot_upper_bound-Splits_example = get_pivot_upper_bound-Splits matrix 0 increasing

ordered : InOrder matrix.rows 0 (0 ∷ 1 ∷ [])
unfolding InOrder linear_matrix init bit_matrix init_bit xor_bit
ordered = (omega arith, omega arith, (omega arith, omega arith, tt))

sort_by_pivot-IsWf_example : IsWf (sort_by_pivot matrix (0 ∷ 1 ∷ [])).0
sort_by_pivot-IsWf_example = sort_by_pivot-IsWf matrix (0 ∷ 1 ∷ []) system-IsReady.wf ordered

low_zeros : (j : ℕ) → j < 2 → bit 12 j ≡ false
unfolding bit
low_zeros zero lt = refl
low_zeros (suc zero) lt = refl
low_zeros (suc (suc j)) lt = absurd (omega arith)

twelve-IsLowest : IsLowest 12 2
unfolding bit
twelve-IsLowest = record { there = refl; below = low_zeros }

lsb-eq-two_pow_example : least_significant_set_bitmask 12 ≡ 2 ^ 2
lsb-eq-two_pow_example = lsb-eq-two_pow 12 2 (omega arith) (omega arith) twelve-IsLowest

listed-get_bits_set_example :
    Increasing 0 (matrix.cols64 * 64) (get_bits_set matrix 0)
    × ((c : ℕ)
        → listed c (get_bits_set matrix 0) ≡ (ltb c (matrix.cols64 * 64) && get_bit matrix 0 c))
listed-get_bits_set_example = listed-get_bits_set matrix 0
