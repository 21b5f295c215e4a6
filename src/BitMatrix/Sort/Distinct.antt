-- ===== src/BitMatrix/Sort/Distinct.antt =====
-- Rows of `row_` in src/bit_matrix.cpp that start at different places, told by a count for each place.
use nldtool.Base.{ℕ, zero, suc, ◌≤◌, ◌<◌, ◌≡◌, arith, sym, ◌∙◌, List, ◌==◌, if◌then◌else◌}
use native.Mathlib.Decide.{ℕ_discrete}
use nldtool.BitMatrix.{Row}
use nldtool.BitMatrix.Sort.Weights.{at, upto}

-- One for the rows that start at `x`.
abbrev pub starts_at : ℕ → Row → ℕ
starts_at x r = if r.index == x then 1 else 0

starts_here : (x : ℕ) (r : Row) → r.index ≡ x → starts_at x r ≡ 1
starts_here x r e = ground (arith, e)

starts_elsewhere : (x : ℕ) (r : Row) → ¬ (r.index ≡ x) → starts_at x r ≡ 0
starts_elsewhere x r ne = ground (arith, ne)

counted_one : (t : List Row) (n x i : ℕ) → i < n → (at t i).index ≡ x → 1 ≤ upto (starts_at x) t n
unfolding upto
counted_one t zero x i lt e = absurd (omega arith)
counted_one t (suc n) x i lt e = elim (ℕ_discrete i n) [
  | yes same ↦
      let here = starts_here x (at t i) e in let here' = rw same at here in omega (arith, here')
  | no ne ↦ omega (arith, counted_one t n x i (omega arith) e)
]

pub counted_twice :
    (t : List Row) (n x i j : ℕ)
    → i < j
    → j < n
    → (at t i).index ≡ x
    → (at t j).index ≡ x
    → 2 ≤ upto (starts_at x) t n
unfolding upto
counted_twice t zero x i j lt hj ei ej = absurd (omega arith)
counted_twice t (suc n) x i j lt hj ei ej = elim (ℕ_discrete j n) [
  | yes same ↦
      let here = starts_here x (at t j) ej in
      let here' = rw same at here in omega (arith, here', counted_one t n x i (omega arith) ei)
  | no ne ↦ omega (arith, counted_twice t n x i j lt (omega arith) ei ej)
]

counted_none :
    (t : List Row) (n x : ℕ)
    → ((k : ℕ) → k < n → ¬ ((at t k).index ≡ x))
    → upto (starts_at x) t n ≡ 0
unfolding upto
counted_none t zero x h = omega arith
counted_none t (suc n) x h = omega (
  arith,
  counted_none t n x (λ k lt. h k (omega arith)),
  starts_elsewhere x (at t n) (h n (omega arith)),
)

pub counted_once :
    (t : List Row) (n x : ℕ)
    → ((i j : ℕ) → i < n → j < n → (at t i).index ≡ (at t j).index → i ≡ j)
    → upto (starts_at x) t n ≤ 1
unfolding upto
counted_once t zero x distinct = omega arith
counted_once t (suc n) x distinct = elim (ℕ_discrete (at t n).index x) [
  | yes e ↦
      let before = counted_none t n x (λ k lt e'. absurd (
        let same = distinct k n (omega arith) (omega arith) (e' ∙ sym e) in
        omega (arith, same, lt))) in
      omega (arith, before, starts_here x (at t n) e)
  | no ne ↦ omega (
    arith,
    starts_elsewhere x (at t n) ne,
    counted_once t n x (λ i j hi hj. distinct i j (omega arith) (omega arith)),
  )
]
