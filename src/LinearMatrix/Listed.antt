-- ===== src/LinearMatrix/Listed.antt =====
-- `update_pivot_` of src/linear_matrix.cpp: the rows whose pivot has changed, in increasing order and within the matrix.
use nldtool.Base.{
  ℕ, zero, suc, ◌+◌, ◌≤◌, ◌<◌, ◌≡◌, arith, ◌∙◌, Bool, true, false, List, [], ◌∷◌, not, ◌==◌, ◌&&◌,
  ltb, get_or, ◌*◌, if◌then◌else◌, Bool-cases, inl, inr, tri,
}
use nldtool.BitMatrix.{
  BitMatrix, xor_row, xor_row_to_row, get_bit, get_pivot, get_pivot_upper_bound,
}
use nldtool.BitMatrix.Sort.Weights.{InOrder}
use nldtool.LinearMatrix.{
  LinearMatrix, set_insert, touch, xor_row_logged, xor_row_to_row_logged, is_contradiction,
  eliminate_row, eliminate, gauss_row, reduce_at, reduce_row, substitute, touch_at, touch_pivots,
  enter_equation,
}

set_insert-InOrder :
    (n r x : ℕ) (xs : List ℕ) → r ≤ x → x < n → InOrder n r xs → InOrder n r (set_insert x xs)
unfolding set_insert InOrder
set_insert-InOrder n r x [] le lt h = (le, lt, tt)
set_insert-InOrder n r x (y ∷ ys) le lt h = elim (tri x y) [
  | inl less ↦ let t : ltb x y ≡ true = ground arith in rw t (le, lt, (omega arith, h.1, h.2))
  | inr (inl same) ↦
      let t : ltb x y ≡ false = ground arith in
      let u : (x == y) ≡ true = ground arith in rw (t, u) h
  | inr (inr more) ↦
      let t : ltb x y ≡ false = ground arith in
      let u : (x == y) ≡ false = ground arith in
      rw (t, u) (h.0, h.1, set_insert-InOrder n (y + 1) x ys (omega arith) lt h.2)
]

xor_row_to_row_rows : (m : BitMatrix) (a b : ℕ) → (xor_row_to_row m a b).0.rows ≡ m.rows
unfolding xor_row_to_row
xor_row_to_row_rows m a b = ground arith

xor_row_rows :
    (m : BitMatrix) (row : ℕ) (equation : List ℕ) → (xor_row m row equation).0.rows ≡ m.rows
unfolding xor_row
xor_row_rows m row equation = ground arith

module _ (n : ℕ) where
  -- A matrix of `n` rows, and the listed rows in increasing order below `n`.
  abbrev pub Listed : LinearMatrix → Type 0
  Listed l = (l.matrix.rows ≡ n) × InOrder n 0 l.update_pivot

  xor_row_to_row_logged-Listed :
      (l : LinearMatrix) (a b : ℕ) (log : Bool)
      → Listed l
      → Listed (xor_row_to_row_logged l a b log).0
  unfolding xor_row_to_row_logged
  xor_row_to_row_logged-Listed l a b true h = (xor_row_to_row_rows l.matrix a b ∙ h.0, h.1)
  xor_row_to_row_logged-Listed l a b false h = (xor_row_to_row_rows l.matrix a b ∙ h.0, h.1)

  xor_row_logged-Listed :
      (l : LinearMatrix) (row : ℕ) (equation : List ℕ) (log : Bool)
      → Listed l
      → Listed (xor_row_logged l row equation log)
  unfolding xor_row_logged
  xor_row_logged-Listed l row equation true h = (xor_row_rows l.matrix row equation ∙ h.0, h.1)
  xor_row_logged-Listed l row equation false h = (xor_row_rows l.matrix row equation ∙ h.0, h.1)

  touch-Listed :
      (l : LinearMatrix) (row : ℕ) (changed : Bool)
      → row < n
      → Listed l
      → Listed (touch l row changed)
  unfolding touch
  touch-Listed l row true lt h =
      (h.0, set_insert-InOrder n 0 row l.update_pivot (omega arith) lt h.1)
  touch-Listed l row false lt h = h

  eliminate_row-Listed :
      (row pivot : ℕ) (backtrack : Bool) (i : ℕ) (l : LinearMatrix)
      → i < n
      → Listed l
      → Listed (eliminate_row row pivot backtrack i l).0
  unfolding eliminate_row
  eliminate_row-Listed row pivot backtrack i l lt h =
      let result = xor_row_to_row_logged l i row backtrack in
      let added = xor_row_to_row_logged-Listed l i row backtrack h in
      elim (Bool-cases (i == row)) [
        | inl t ↦ rw t h
        | inr f ↦ elim (Bool-cases (get_bit l.matrix i pivot)) [
          | inl hit ↦ elim (Bool-cases result.1) [
            | inl moved ↦ rw (f, hit, moved) (touch-Listed result.0 i true lt added)
            | inr kept ↦ rw (f, hit, kept) added
          ]
          | inr miss ↦ rw (f, miss) h
        ]
      ]

  eliminate-Listed :
      (row pivot : ℕ) (backtrack : Bool) (left i : ℕ) (l : LinearMatrix)
      → i + left ≤ n
      → Listed l
      → Listed (eliminate row pivot backtrack left i l).0
  unfolding eliminate
  eliminate-Listed row pivot backtrack zero i l le h = h
  eliminate-Listed row pivot backtrack (suc left) i l le h =
      let done = eliminate_row row pivot backtrack i l in
      let once = eliminate_row-Listed row pivot backtrack i l (omega arith) h in
      elim (Bool-cases done.1) [
        | inl t ↦ rw t (eliminate-Listed row pivot backtrack left (i + 1) done.0 (omega arith) once)
        | inr f ↦ rw f once
      ]

  pub gauss_row-Listed :
      (row : ℕ) (backtrack : Bool) (l : LinearMatrix)
      → Listed l
      → Listed (gauss_row row backtrack l).0
  unfolding gauss_row
  gauss_row-Listed row backtrack l h =
      let pivot = get_pivot l.matrix row in
      elim (Bool-cases (is_contradiction l row)) [
        | inl t ↦ rw t h
        | inr f ↦ elim (Bool-cases (pivot == 64 * l.matrix.cols64)) [
          | inl z ↦ rw (f, z) h
          | inr nz ↦
              rw (f, nz)
                (eliminate-Listed row pivot backtrack l.matrix.rows 0 l (omega (arith, h.0)) h)
        ]
      ]

  reduce_at-Listed :
      (row : ℕ) (backtrack : Bool) (col above : ℕ) (l : LinearMatrix)
      → Listed l
      → Listed (reduce_at row backtrack col above l)
  unfolding reduce_at
  reduce_at-Listed row backtrack col zero l h = h
  reduce_at-Listed row backtrack col (suc r) l h =
      elim (Bool-cases (not (row == r) && get_pivot l.matrix r == col)) [
        | inl t ↦ rw t (xor_row_to_row_logged-Listed l row r backtrack h)
        | inr f ↦ rw f h
      ]

  reduce_row-Listed :
      (row : ℕ) (backtrack : Bool) (equation : List ℕ) (l : LinearMatrix)
      → Listed l
      → Listed (reduce_row row backtrack equation l)
  unfolding reduce_row
  reduce_row-Listed row backtrack [] l h = h
  reduce_row-Listed row backtrack (col ∷ equation) l h =
      reduce_row-Listed row backtrack equation
        (reduce_at row backtrack col (get_pivot_upper_bound l.matrix col) l)
        (reduce_at-Listed row backtrack col (get_pivot_upper_bound l.matrix col) l h)

  substitute-Listed :
      (equation : List ℕ) (backtrack : Bool) (left r : ℕ) (l : LinearMatrix)
      → Listed l
      → Listed (substitute equation backtrack left r l)
  unfolding substitute
  substitute-Listed equation backtrack zero r l h = h
  substitute-Listed equation backtrack (suc left) r l h =
      let c = get_bit l.matrix r (get_or equation 0 0) in
      let once : Listed (if c then xor_row_logged l r equation backtrack else l) =
        elim (Bool-cases c) [
          | inl t ↦ rw t (xor_row_logged-Listed l r equation backtrack h)
          | inr f ↦ rw f h
        ] in
      substitute-Listed equation backtrack left (r + 1)
        (if c then xor_row_logged l r equation backtrack else l) once

  touch_at-Listed : (col above : ℕ) (l : LinearMatrix) → Listed l → Listed (touch_at col above l)
  unfolding touch_at touch
  touch_at-Listed col zero l h = h
  touch_at-Listed col (suc r) l h = elim (Bool-cases (get_pivot l.matrix r == col)) [
    | inl t ↦ rw t h
    | inr f ↦ rw f h
  ]

  touch_pivots-Listed :
      (equation : List ℕ) (l : LinearMatrix) → Listed l → Listed (touch_pivots equation l)
  unfolding touch_pivots
  touch_pivots-Listed [] l h = h
  touch_pivots-Listed (col ∷ equation) l h =
      touch_pivots-Listed equation (touch_at col (get_pivot_upper_bound l.matrix col) l)
        (touch_at-Listed col (get_pivot_upper_bound l.matrix col) l h)

  -- Entering an equation keeps to it.
  pub enter_equation-Listed :
      (above : ℕ) (l : LinearMatrix) (first : ℕ) (rest : List ℕ) (backtrack : Bool)
      → above ≤ n
      → Listed l
      → Listed (enter_equation above l first rest backtrack)
  unfolding enter_equation
  enter_equation-Listed zero l first rest backtrack le h = touch_pivots-Listed rest l h
  enter_equation-Listed (suc row) l first rest backtrack le h =
      let added = xor_row_logged l row (first ∷ rest) backtrack in
      elim (Bool-cases (get_pivot l.matrix row == first)) [
        | inl t ↦ rw t (
            reduce_row-Listed row backtrack rest (touch added row true) (
              touch-Listed added row true (omega arith)
                (xor_row_logged-Listed l row (first ∷ rest) backtrack h)))
        | inr f ↦ rw f (
            touch_pivots-Listed rest (substitute (first ∷ rest) backtrack (suc row) 0 l)
              (substitute-Listed (first ∷ rest) backtrack (suc row) 0 l h))
      ]
