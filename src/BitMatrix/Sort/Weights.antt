-- ===== src/BitMatrix/Sort/Weights.antt =====
-- Sums over the rows that `SortByPivot` of src/bit_matrix.cpp moves: of a weight for each row.
use nldtool.Base.{
  ℕ, zero, suc, ◌+◌, ◌≤◌, ◌<◌, ◌≡◌, refl, arith, ap, sym, subst, true, false, List, [], ◌∷◌, map,
  ◌==◌, leb, if◌then◌else◌, Bool-cases, inl, inr, length, get_or, set, get_or-set_self,
  get_or-set_ne,
}
use native.Mathlib.Decide.{ℕ_discrete}
use nldtool.BitMatrix.{Row, no_row}
use nldtool.BitMatrix.Sort.{insert_row, sort_rows, skip_removed}

-- The row at a place.
abbrev pub at : List Row → ℕ → Row
at t k = get_or t k no_row

-- Places from `r` on and below `n`, each above the one before.
unfoldable pub InOrder : ℕ → ℕ → List ℕ → Type 0
InOrder n r [] = Unit
InOrder n r (x ∷ xs) = (r ≤ x) × (x < n) × InOrder n (x + 1) xs

module _ (w : Row → ℕ) where
  unfoldable pub total : List Row → ℕ
  total [] = 0
  total (r ∷ rs) = w r + total rs

  unfoldable pub upto : List Row → ℕ → ℕ
  upto t zero = 0
  upto t (suc n) = upto t n + w (at t n)

  -- The rows from `r` on that are not removed.
  unfoldable pub left_over : List Row → ℕ → ℕ → List ℕ → ℕ
  left_over t zero r xs = 0
  left_over t (suc left) r [] = w (at t r) + left_over t left (r + 1) []
  left_over t (suc left) r (x ∷ xs) =
      let taken = left_over t left (r + 1) xs in
      let kept = left_over t left (r + 1) (x ∷ xs) in if r == x then taken else w (at t r) + kept

  total-insert_row : (r : Row) (rs : List Row) → total (insert_row r rs) ≡ w r + total rs
  unfolding total insert_row
  total-insert_row r [] = refl
  total-insert_row r (s ∷ rs) = elim (Bool-cases (leb r.pivot s.pivot)) [
    | inl t ↦ rw t refl
    | inr e ↦ rw e (omega (arith, total-insert_row r rs))
  ]

  pub total-sort_rows : (rs : List Row) → total (sort_rows rs) ≡ total rs
  unfolding total sort_rows
  total-sort_rows [] = refl
  total-sort_rows (r ∷ rs) = omega (arith, total-insert_row r (sort_rows rs), total-sort_rows rs)

  pub upto-suc : (t : List Row) (n : ℕ) → upto t (n + 1) ≡ upto t n + w (at t n)
  unfolding upto
  upto-suc t n = let next : n + 1 ≡ suc n = omega arith in rw next refl

  pub upto-agree :
      (t t' : List Row) (n : ℕ) → ((k : ℕ) → k < n → at t k ≡ at t' k) → upto t n ≡ upto t' n
  unfolding upto
  upto-agree t t' zero h = refl
  upto-agree t t' (suc n) h =
      omega (arith, upto-agree t t' n (λ k lt. h k (omega arith)), ap w (h n (omega arith)))

  -- A row stored at the end of what is done.
  pub upto-set :
      (t : List Row) (n : ℕ) (r : Row) → n < length t → upto (set t n r) (n + 1) ≡ upto t n + w r
  upto-set t n r lt =
      let here = ap w (get_or-set_self t n r no_row lt) in
      let before =
        upto-agree (set t n r) t n
          (λ k below. get_or-set_ne t n k r no_row (λ e. absurd (omega (arith, e, below)))) in
      omega (arith, upto-suc (set t n r) n, here, before)

  -- Rows that stay where they are, up to the next one that is removed.
  pub left_over-gap :
      (t : List Row) (d left r x : ℕ) (xs : List ℕ)
      → r + d ≤ x
      → left_over t (d + left) r (x ∷ xs) + upto t r
        ≡ left_over t left (r + d) (x ∷ xs) + upto t (r + d)
  unfolding left_over
  left_over-gap t zero left r x xs le =
      let a : 0 + left ≡ left = omega arith in let b : r + 0 ≡ r = omega arith in rw (a, b) refl
  left_over-gap t (suc d) left r x xs le =
      let a : suc d + left ≡ suc (d + left) = omega arith in
      let b : r + suc d ≡ r + 1 + d = omega arith in
      let differ : (r == x) ≡ false = ground arith in
      rw (a, b, differ)
        (omega (arith, left_over-gap t d left (r + 1) x xs (omega arith), upto-suc t r))

  -- The rest, when nothing is removed.
  pub left_over-none :
      (t : List Row) (left r : ℕ) → upto t r + left_over t left r [] ≡ upto t (r + left)
  unfolding left_over
  left_over-none t zero r = let b : r + 0 ≡ r = omega arith in rw b (omega arith)
  left_over-none t (suc left) r =
      let b : r + suc left ≡ r + 1 + left = omega arith in
      rw b (omega (arith, left_over-none t left (r + 1), upto-suc t r))

  -- A row that is not removed.
  pub left_over-kept :
      (t : List Row) (n left r : ℕ) (xs : List ℕ)
      → InOrder n (r + 1) xs
      → left_over t (suc left) r xs ≡ w (at t r) + left_over t left (r + 1) xs
  unfolding left_over InOrder
  left_over-kept t n left r [] h = refl
  left_over-kept t n left r (x ∷ xs) h =
      let differ : (r == x) ≡ false = ground (arith, h.0) in rw differ refl

  -- What is removed and what is left is all.
  pub left_over-removed :
      (t : List Row) (n left r : ℕ) (xs : List ℕ)
      → r + left ≡ n
      → InOrder n r xs
      → upto t r + total (map (at t) xs) + left_over t left r xs ≡ upto t n
  unfolding left_over InOrder total
  left_over-removed t n left r [] e h =
      let all = left_over-none t left r in
      subst (λ k. upto t r + 0 + left_over t left r [] ≡ upto t k) e (omega (arith, all))
  left_over-removed t n zero r (x ∷ xs) e h = absurd (omega (arith, h.0, h.1))
  left_over-removed t n (suc left) r (x ∷ xs) e h = elim (ℕ_discrete r x) [
    | yes same ↦
        let t' : (r == x) ≡ true = ground arith in
        let later =
          left_over-removed t n left (r + 1) xs (omega arith)
            (subst (λ k. InOrder n (k + 1) xs) (sym same) h.2) in
        rw t' (omega (arith, later, upto-suc t r, ap (λ k. w (at t k)) same))
    | no ne ↦
        let t' : (r == x) ≡ false = ground arith in
        let later =
          left_over-removed t n left (r + 1) (x ∷ xs) (omega arith)
            (omega (arith, h.0, ne), h.1, h.2) in
        rw t' (omega (arith, later, upto-suc t r))
  ]

-- What `skip_removed` leaves.
pub skip_removed-left :
    (w : Row → ℕ) (t : List Row) (n left r : ℕ) (xs : List ℕ)
    → r + left ≡ n
    → InOrder n r xs
    → (left' : ℕ) × ((skip_removed xs r).1 + left' ≡ n)
      × InOrder n ((skip_removed xs r).1 + 1) (skip_removed xs r).0
      × (length (skip_removed xs r).0 + (skip_removed xs r).1 ≡ length xs + r)
      × (r ≤ (skip_removed xs r).1)
      × (left_over w t left' (skip_removed xs r).1 (skip_removed xs r).0 ≡ left_over w t left r xs)
unfolding skip_removed InOrder left_over
skip_removed-left w t n left r [] e h = (left, e, tt, refl, omega arith, refl)
skip_removed-left w t n zero r (x ∷ xs) e h = absurd (omega (arith, h.0, h.1))
skip_removed-left w t n (suc left) r (x ∷ xs) e h = elim (ℕ_discrete r x) [
  | yes same ↦
      let t' : (r == x) ≡ true = ground arith in
      let (left', top, ordered, counted, up, kept) =
        skip_removed-left w t n left (r + 1) xs (omega arith)
          (subst (λ k. InOrder n (k + 1) xs) (sym same) h.2) in
      rw t' (left', top, ordered, omega (arith, counted), omega (arith, up), kept)
  | no ne ↦
      let t' : (r == x) ≡ false = ground arith in
      rw t' (suc left, e, (omega (arith, h.0, ne), h.1, h.2), refl, omega arith, rw t' refl)
]

pub InOrder-down : (n r : ℕ) (xs : List ℕ) → InOrder n (r + 1) xs → InOrder n r xs
unfolding InOrder
InOrder-down n r [] h = tt
InOrder-down n r (x ∷ xs) h = (omega (arith, h.0), h.1, h.2)

skip_removed-up : (xs : List ℕ) (r : ℕ) → r ≤ (skip_removed xs r).1
unfolding skip_removed
skip_removed-up [] r = omega arith
skip_removed-up (x ∷ xs) r = elim (ℕ_discrete r x) [
  | yes e ↦
      let t' : (r == x) ≡ true = ground arith in rw t' (omega (arith, skip_removed-up xs (r + 1)))
  | no ne ↦ let t' : (r == x) ≡ false = ground arith in rw t' (omega arith)
]

-- A row that is read and removed is passed.
pub skip_removed-head : (xs : List ℕ) (r : ℕ) → r < (skip_removed (r ∷ xs) r).1
unfolding skip_removed
skip_removed-head xs r =
    let t' : (r == r) ≡ true = ground arith in rw t' (omega (arith, skip_removed-up xs (r + 1)))
