-- ===== src/LinearMatrix/Measure.antt =====
-- The measure by which `EpsilonGauss` of src/linear_matrix.cpp ends: twice the distance of the pivots
-- from the last column, plus the number of rows to update.
use nldtool.Base.{
  ℕ, zero, suc, ◌+◌, ◌-◌, ◌*◌, ◌≤◌, ◌<◌, ◌≡◌, ◌≢◌, refl, arith, List, [], ◌∷◌, length, All, ap,
}
use native.Mathlib.Decide.{ℕ_discrete}
use nldtool.BitMatrix.{get_pivot}
use nldtool.LinearMatrix.{LinearMatrix, set_insert}

-- The distances of `f 0`, …, `f (k - 1)` from `n`, summed up.
unfoldable pub weight : ℕ → ℕ → (ℕ → ℕ) → ℕ
weight n zero f = 0
weight n (suc k) f = (n - f k) + weight n k f

pub weight_ext :
    (n k : ℕ) (f g : ℕ → ℕ) → ((i : ℕ) → i < k → f i ≡ g i) → weight n k f ≡ weight n k g
unfolding weight
weight_ext n zero f g h = refl
weight_ext n (suc k) f g h =
    omega (arith, h k (omega arith), weight_ext n k f g (λ i lt. h i (omega arith)))

-- Moving one place towards `n` makes the sum smaller.
pub weight_lt :
    (n k r : ℕ) (f g : ℕ → ℕ)
    → r < k
    → f r < g r
    → g r ≤ n
    → ((i : ℕ) → i ≢ r → g i ≡ f i)
    → weight n k g < weight n k f
unfolding weight
weight_lt n zero r f g lt up top same = absurd (omega arith)
weight_lt n (suc k) r f g lt up top same = elim (ℕ_discrete k r) [
  | yes e ↦
      (let rest = weight_ext n k g f (λ i lt_i. same i (omega arith)) in
        let fe : f k ≡ f r = ap f e in let ge : g k ≡ g r = ap g e in omega arith)
  | no ne ↦ omega (arith, same k ne, weight_lt n k r f g (omega arith) up top same)
]

unfoldable pub measure : LinearMatrix → ℕ
measure l =
    2 * weight (64 * l.matrix.cols64) l.matrix.rows (get_pivot l.matrix) + length l.update_rows

pub length-set_insert-le : (x : ℕ) (xs : List ℕ) → length (set_insert x xs) ≤ suc (length xs)
unfolding set_insert
length-set_insert-le x [] = omega arith
length-set_insert-le x (y ∷ ys) = ground (arith, length-set_insert-le x ys)

pub set_insert-All :
    (n x : ℕ) (xs : List ℕ) → x < n → All (λ i. i < n) xs → All (λ i. i < n) (set_insert x xs)
unfolding set_insert
set_insert-All n x [] lt a = (lt, tt)
set_insert-All n x (y ∷ ys) lt a = ground (arith, set_insert-All n x ys lt a.1)
