-- ===== src/LinearMatrix/Eliminate.antt =====
-- The inner loop of `EpsilonGauss` in src/linear_matrix.cpp: it clears a pivot column from the other
-- rows.
use native.Mathlib.Decide.{ℕ_discrete}
use nldtool.Base.{
  tri, ℕ, zero, suc, ◌+◌, ◌*◌, ◌≤◌, ◌<◌, ◌≡◌, ◌≢◌, refl, arith, Bool, true, false, not, ◌==◌,
  if◌then◌else◌, ltb, length, All, inl, inr, sym, ◌∙◌, ap, xor, Bool-cases, subst,
}
use nldtool.BitMatrix.{BitMatrix, get_pivot, get_bit, xor_row_to_row}
use nldtool.BitMatrix.Blocks.{col_bit}
use nldtool.BitMatrix.Invariant.{IsWf, IsUpdate, row_bits}
use nldtool.BitMatrix.Update.{xor_row_to_row-IsUpdate}
use nldtool.LinearMatrix.{
  LinearMatrix, is_contradiction, xor_row_to_row_logged, touch, eliminate_row, eliminate,
}
use nldtool.LinearMatrix.Added.{IsAdded, xor_row_to_row_logged-IsAdded, Keeps-added, change}
use nldtool.LinearMatrix.Measure.{
  weight_ext, weight_lt, measure, length-set_insert-le, set_insert-All,
}
use nldtool.LinearMatrix.Keeps.{IsReady, Keeps, Keeps-refl, Keeps-trans, Contradicts}

-- Where row `a` has the pivot of row `b` set, `XorRowtoRow` reports a change exactly if the pivot of
-- row `a` moves, and then it moves to the right.
data Moves (p p' : ℕ) (flag : Bool) : Type 0 where
  right : flag ≡ true → p < p' → Moves p p' flag
  stays : flag ≡ false → p' ≡ p → Moves p p' flag

module _ {m : BitMatrix} {a b : ℕ} (w : IsWf m) (la : a < m.rows) (lb : b < m.rows) (ne : a ≢ b)
    (below : get_pivot m b < 64 * m.cols64) (hit : row_bits m a (get_pivot m b) ≡ true) where
  after : IsUpdate m (xor_row_to_row m a b).0 a (λ c. xor (row_bits m a c) (row_bits m b c))
  after = xor_row_to_row-IsUpdate m a b w la lb ne

  new_pivot-gt :
      get_pivot m a ≡ get_pivot m b → get_pivot m a < get_pivot (xor_row_to_row m a b).0 a
  unfolding xor
  new_pivot-gt e =
      let p = get_pivot m b in
      let p' = get_pivot (xor_row_to_row m a b).0 a in
      let row_a = w.pivots a la in
      let row_b = w.pivots b lb in
      ground (
        arith,
        after.pivot.there,
        after.pivot.bounded,
        row_a.below p',
        row_b.below p',
        row_b.there,
        ap (row_bits m a) {x = p'} {y = p},
        ap (row_bits m b) {x = p'} {y = p},
      )

  xor_row_to_row-Moves :
      Moves (get_pivot m a) (get_pivot (xor_row_to_row m a b).0 a) (xor_row_to_row m a b).1
  unfolding xor_row_to_row
  xor_row_to_row-Moves = elim (tri (get_pivot m a) (get_pivot m b)) [
    | inl lt ↦
        let test : ltb (get_pivot m b) (get_pivot m a) ≡ false = ground arith in
        let same : (get_pivot m a == get_pivot m b) ≡ false = ground arith in
        stays (rw (test, same)) (rw (test, same))
    | inr (inl eq) ↦
        let test : ltb (get_pivot m b) (get_pivot m a) ≡ false = ground arith in
        let same : (get_pivot m a == get_pivot m b) ≡ true = ground arith in
        right (rw (test, same)) (new_pivot-gt eq)
    | inr (inr gt) ↦ let row_a = w.pivots a la in ground (arith, row_a.below (get_pivot m b), hit)
  ]

-- What one round, and the loop, does to the system.
pub record Eliminates (row : ℕ) (l : LinearMatrix) (result : LinearMatrix × Bool) : Type 0 where
  pub keeps : Keeps l result.0
  pub less : measure result.0 ≤ measure l
  pub same_pivot : get_pivot result.0.matrix row ≡ get_pivot l.matrix row
  pub stops : result.1 ≡ false → Contradicts result.0

nothing : (row : ℕ) (l : LinearMatrix) → IsReady l → Eliminates row l (l, true)
nothing row l r = record {
  keeps = Keeps-refl l r;
  less = omega arith;
  same_pivot = refl;
  stops = λ h. cc;
}

module _ {l : LinearMatrix} {a b : ℕ} (r : IsReady l) (la : a < l.matrix.rows)
    (lb : b < l.matrix.rows) (ne : a ≢ b) where
  moved :
      IsUpdate l.matrix
        (xor_row_to_row l.matrix a b).0
        a
        (λ c. xor (row_bits l.matrix a c) (row_bits l.matrix b c))
  moved = change r la lb ne

  measure-right :
      (l' : LinearMatrix)
      → l'.matrix ≡ (xor_row_to_row l.matrix a b).0
      → length l'.update_rows ≤ suc (length l.update_rows)
      → get_pivot l.matrix a < get_pivot (xor_row_to_row l.matrix a b).0 a
      → measure l' ≤ measure l
  unfolding measure
  measure-right l' em len up =
      rw (em, moved.rows, moved.cols64)
        (omega (
          arith,
          weight_lt (64 * l.matrix.cols64) l.matrix.rows a (get_pivot l.matrix)
              (get_pivot (xor_row_to_row l.matrix a b).0) la up moved.pivot.bounded
              moved.other_pivots,
        ))

  measure-stays :
      (l' : LinearMatrix)
      → l'.matrix ≡ (xor_row_to_row l.matrix a b).0
      → length l'.update_rows ≡ length l.update_rows
      → get_pivot (xor_row_to_row l.matrix a b).0 a ≡ get_pivot l.matrix a
      → measure l' ≤ measure l
  unfolding measure
  measure-stays l' em len same =
      rw (em, moved.rows, moved.cols64)
        (omega (
          arith,
          weight_ext (64 * l.matrix.cols64) l.matrix.rows
              (get_pivot (xor_row_to_row l.matrix a b).0) (get_pivot l.matrix) pivots,
        ))
    where
      pivots :
          (i : ℕ)
          → i < l.matrix.rows
          → get_pivot (xor_row_to_row l.matrix a b).0 i ≡ get_pivot l.matrix i
      pivots i lt = elim (ℕ_discrete i a) [ yes e ↦ rw e same | no ne' ↦ moved.other_pivots i ne' ]

-- The state after row `i` was changed, touched if the flag says so.
touched : LinearMatrix × Bool → ℕ → LinearMatrix
touched result i = if result.1 then touch result.0 i true else result.0

touched_lem :
    (result : LinearMatrix × Bool) (i : ℕ)
    → ((touched result i).matrix ≡ result.0.matrix) × ((touched result i).rhs ≡ result.0.rhs)
unfolding touched touch
touched_lem result i = ground arith

module _ (row : ℕ) (backtrack : Bool) (i : ℕ) (l : LinearMatrix) (r : IsReady l)
    (li : i < l.matrix.rows) (lr : row < l.matrix.rows) (ne : i ≢ row)
    (below : get_pivot l.matrix row < 64 * l.matrix.cols64)
    (hit : row_bits l.matrix i (get_pivot l.matrix row) ≡ true) where
  result : LinearMatrix × Bool
  result = xor_row_to_row_logged l i row backtrack

  next : LinearMatrix
  next = touched result i

  logged : IsAdded l result.0 i row × (result.1 ≡ (xor_row_to_row l.matrix i row).1)
  unfolding result
  logged = xor_row_to_row_logged-IsAdded l i row backtrack

  next_matrix : next.matrix ≡ (xor_row_to_row l.matrix i row).0
  unfolding next
  next_matrix = (touched_lem result i).0 ∙ logged.0.matrix

  next_rhs : next.rhs ≡ l.rhs
  unfolding next
  next_rhs = (touched_lem result i).1 ∙ logged.0.rhs

  next_pending : All (λ j. j < l.matrix.rows) next.update_rows
  unfolding next touched touch
  next_pending = elim (Bool-cases result.1) [
    | inl t ↦ rw (t, logged.0.pending) (set_insert-All l.matrix.rows i l.update_rows li r.pending)
    | inr f ↦ rw (f, logged.0.pending) r.pending
  ]

  next-measure : measure next ≤ measure l
  unfolding next touched touch
  next-measure = elim (xor_row_to_row-Moves r.wf li lr ne below hit) [
    | right t up ↦
        measure-right r li lr ne next next_matrix
          (rw (logged.1 ∙ t, logged.0.pending) (length-set_insert-le i l.update_rows)) up
    | stays f same ↦
        measure-stays r li lr ne next next_matrix (rw (logged.1 ∙ f, logged.0.pending)) same
  ]

  next-Eliminates : Eliminates row l (next, not (is_contradiction next i))
  next-Eliminates = record {
    keeps = Keeps-added r li lr ne next next_matrix next_rhs next_pending;
    less = next-measure;
    same_pivot = rw next_matrix ((change r li lr ne).other_pivots row (λ e. ne (sym e)));
    stops = λ h. record {
      row = i;
      in_range = rw (next_matrix, (change r li lr ne).rows) li;
      at_rhs = ground arith;
    };
  }

get_bit-row_bits : (m : BitMatrix) (i c : ℕ) → get_bit m i c ≡ row_bits m i c
unfolding get_bit col_bit
get_bit-row_bits m i c = refl

eliminate_row-Eliminates :
    (row : ℕ) (backtrack : Bool) (i : ℕ) (l : LinearMatrix)
    → IsReady l
    → i < l.matrix.rows
    → row < l.matrix.rows
    → get_pivot l.matrix row < 64 * l.matrix.cols64
    → Eliminates row l (eliminate_row row (get_pivot l.matrix row) backtrack i l)
unfolding eliminate_row
eliminate_row-Eliminates row backtrack i l r li lr below = elim (ℕ_discrete i row) [
  | yes e ↦ let test : (i == row) ≡ true = ground arith in rw test (nothing row l r)
  | no ne ↦
      let test : (i == row) ≡ false = ground arith in
      elim (Bool-cases (get_bit l.matrix i (get_pivot l.matrix row))) [
        | inl hit ↦
            rw (test, hit)
              (unfold next result touched in
                next-Eliminates row backtrack i l r li lr ne below
                  (sym (get_bit-row_bits l.matrix i _) ∙ hit))
        | inr miss ↦ rw (test, miss) (nothing row l r)
      ]
]

-- The loop keeps the system, does not raise the measure, and stops only at a contradiction.
pub eliminate-Eliminates :
    (row : ℕ) (backtrack : Bool) (left i : ℕ) (l : LinearMatrix)
    → IsReady l
    → i + left ≤ l.matrix.rows
    → row < l.matrix.rows
    → get_pivot l.matrix row < 64 * l.matrix.cols64
    → Eliminates row l (eliminate row (get_pivot l.matrix row) backtrack left i l)
unfolding eliminate
eliminate-Eliminates row backtrack zero i l r le lr below = nothing row l r
eliminate-Eliminates row backtrack (suc left) i l r le lr below =
    let pivot = get_pivot l.matrix row in
    let l1 = (eliminate_row row pivot backtrack i l).0 in
    let d = eliminate_row-Eliminates row backtrack i l r (omega arith) lr below in
    let rest =
      subst (λ p. Eliminates row l1 (eliminate row p backtrack left (i + 1) l1)) d.same_pivot
        (eliminate-Eliminates row backtrack left (i + 1) l1 d.keeps.ready
          (rw d.keeps.rows (omega arith)) (rw d.keeps.rows lr)
          (rw (d.same_pivot, d.keeps.cols64) below)) in
    elim (Bool-cases (eliminate_row row pivot backtrack i l).1) [
      | inl on ↦ rw on (record {
        keeps = Keeps-trans d.keeps rest.keeps;
        less = omega (arith, d.less, rest.less);
        same_pivot = rest.same_pivot ∙ d.same_pivot;
        stops = rest.stops;
      })
      | inr off ↦ simp off d
    ]
