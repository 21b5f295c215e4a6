-- ===== src/LinearMatrix/Solutions.antt =====
-- The assignments that satisfy the rows of a `BitMatrix`: a row holds where its columns sum to zero
-- over GF(2). An assignment gives the column RHS the value true.
use nldtool.Base.{
  ℕ, suc, ◌*◌, ◌<◌, ◌≡◌, ◌≢◌, refl, arith, Bool, true, false, List, [], ◌∷◌, ◌==◌, ◌&&◌,
  if◌then◌else◌, ◌∙◌, ap, xor, xor-false, parity, parity_ext, parity-xor, parity_single,
  parity_zeros, and-xor_distrib_right,
}
use native.Mathlib.Decide.{ℕ_discrete}
use nldtool.BitMatrix.{BitMatrix, get_pivot, get_phys_row_index}
use nldtool.BitMatrix.Blocks.{block_bit}
use nldtool.BitMatrix.Invariant.{IsWf, IsUpdate, row_bits, row_bits-block}
use nldtool.BitMatrix.Equation.{eq_bits, Increasing}

-- The sum of a row's columns under the assignment `v`.
pub row_value : (ℕ → Bool) → ℕ → (ℕ → Bool) → Bool
row_value v n f = parity n (λ c. f c && v c)

-- The sum for the row at physical position `p`.
abbrev pub value : (ℕ → Bool) → BitMatrix → ℕ → Bool
value v m p = row_value v (64 * m.cols64) (block_bit m.cols64 m.words p)

-- `v` satisfies every row of the matrix.
abbrev pub Satisfies : (ℕ → Bool) → BitMatrix → Type 0
Satisfies v m = (p : ℕ) → value v m p ≡ false

-- The sum of an equation's columns under `v`.
abbrev pub eq_value : (ℕ → Bool) → List ℕ → Bool
eq_value v [] = false
eq_value v (col ∷ equation) = xor (v col) (eq_value v equation)

pub row_value_ext :
    (v : ℕ → Bool) (n : ℕ) (f g : ℕ → Bool)
    → ((c : ℕ) → c < n → f c ≡ g c)
    → row_value v n f ≡ row_value v n g
unfolding row_value
row_value_ext v n f g h = parity_ext n _ _ (λ c lt. rw (h c lt))

pub row_value-xor :
    (v : ℕ → Bool) (n : ℕ) (f g : ℕ → Bool)
    → row_value v n (λ c. xor (f c) (g c)) ≡ xor (row_value v n f) (row_value v n g)
unfolding row_value
row_value-xor v n f g =
    parity_ext n _ _ (λ c lt. and-xor_distrib_right (f c) (g c) (v c)) ∙ parity-xor n _ _

row_value-single : (v : ℕ → Bool) (n col : ℕ) → col < n → row_value v n (λ c. col == c) ≡ v col
unfolding row_value
row_value-single v n col lt = parity_single n col _ lt (λ c lt_c ne. ground arith) ∙ ground arith

-- The columns of an equation sum to the value of the equation.
pub row_value-eq_bits :
    (v : ℕ → Bool) (lo n : ℕ) (equation : List ℕ)
    → Increasing lo n equation
    → row_value v n (eq_bits equation) ≡ eq_value v equation
unfolding eq_bits
row_value-eq_bits v lo n [] s = unfold row_value in parity_zeros n _ (λ c lt. refl)
row_value-eq_bits v lo n (col ∷ equation) s =
    row_value-xor v n (λ c. col == c) (eq_bits equation)
    ∙ rw (row_value-single v n col s.1, row_value-eq_bits v (suc col) n equation s.2)

module _ {m m' : BitMatrix} {r : ℕ} (h : ℕ → Bool) (w : IsWf m) (lt : r < m.rows)
    (u : IsUpdate m m' r (λ c. xor (row_bits m r c) (h c))) (v : ℕ → Bool) where
  value_after :
      (q : ℕ)
      → value v m' q ≡ (
          if get_phys_row_index m r == q
          then xor (value v m q) (row_value v (64 * m.cols64) h)
          else value v m q)
  value_after q =
      let n = 64 * m.cols64 in
      let old = block_bit m.cols64 m.words q in
      elim (ℕ_discrete (get_phys_row_index m r) q) [
        | yes e ↦
            let test : (get_phys_row_index m r == q) ≡ true = ground arith in
            rw (u.cols64, test)
              (row_value_ext v n _ (λ c. xor (old c) (h c))
                  (λ c lt_c.
                    u.bits q c lt_c
                    ∙ rw test (
                        ap (λ b. xor b (h c))
                          (row_bits-block m r c w lt ∙ ap (λ p. block_bit m.cols64 m.words p c) e)))
                ∙ row_value-xor v n old h)
        | no ne ↦
            let test : (get_phys_row_index m r == q) ≡ false = ground arith in
            rw (u.cols64, test) (row_value_ext v n _ old (λ c lt_c. u.bits q c lt_c ∙ rw test))
      ]

  -- A row whose sum is zero can be added to another without changing any sum.
  pub value-IsUpdate : row_value v (64 * m.cols64) h ≡ false → (q : ℕ) → value v m' q ≡ value v m q
  value-IsUpdate z q = ground (arith, value_after q, xor-false (value v m q))

  pub value-IsUpdate_ne : (q : ℕ) → get_phys_row_index m r ≢ q → value v m' q ≡ value v m q
  value-IsUpdate_ne q ne = ground (arith, value_after q)

-- A row whose pivot is the column RHS cannot be satisfied.
pub contradiction_unsat :
    (m : BitMatrix) (i rhs : ℕ) (v : ℕ → Bool)
    → IsWf m
    → i < m.rows
    → rhs < 64 * m.cols64
    → get_pivot m i ≡ rhs
    → v rhs ≡ true
    → ((c : ℕ) → rhs < c → v c ≡ false)
    → ¬ Satisfies v m
contradiction_unsat m i rhs v w lt lt_rhs e one zeros sat =
    let p = get_phys_row_index m i in
    let row = w.pivots i lt in
    let sum : value v m p ≡ v rhs =
      unfold row_value in
      parity_single (64 * m.cols64) rhs _ lt_rhs
        (λ c lt_c ne. ground (arith, row_bits-block m i c w lt, row.below c, zeros c))
      ∙ ground (arith, row_bits-block m i rhs w lt, row.there, ap (row_bits m i) e) in
    ground (arith, sum, sat p)
