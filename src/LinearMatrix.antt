-- ===== src/LinearMatrix.antt =====
-- src/linear_matrix.h and src/linear_matrix.cpp: a system of linear equations over GF(2) with its
-- log of changes. Column RHS of the matrix holds the right-hand sides. A `std::set<int>` is the
-- increasing list of its elements.
pub mod Solutions
pub mod Measure
pub mod Keeps
pub mod Added
pub mod Eliminate
pub mod Gauss
pub mod Enter
pub mod Equation
pub mod Sound
pub mod Initial
pub mod Undo
pub mod Restore
pub mod Listed
pub mod Again
use nldtool.Base.{
  ℕ, zero, suc, ◌+◌, ◌-◌, ◌/◌, ◌≤◌, Bool, true, false, List, [], ◌∷◌, ◌++◌, leb, ltb, ◌==◌,
  if◌then◌else◌, get_or, length, ◌&&◌, not, Option, none, some,
}
use nldtool.BitMatrix.{
  BitMatrix, get_pivot, get_pivot_upper_bound, get_bit, get_phys_row_index, nopivot, bit_matrix,
  xor_bit, xor_row, xor_row_to_row,
}
use nldtool.BitMatrix.Sort.{sort_by_pivot}
use nldtool.Change.{Change, init_change, sort_change, xor_row_change, xor_row_to_row_change}

pub record LinearMatrix : Type 0 where
  pub matrix : BitMatrix
  pub rhs : ℕ
  pub changes : List Change
  pub stash : List Change
  pub rows_to_extract : List ℕ
  pub update_rows : List ℕ
  pub update_pivot : List ℕ

-- `TinySet<int>`: `find` and `insert` of src/tinyset.h.
unfoldable pub find : List ℕ → ℕ → Bool
find [] x = false
find (y ∷ ys) x = if y == x then true else find ys x

unfoldable pub tiny_insert : List ℕ → ℕ → List ℕ
tiny_insert xs x = if find xs x then xs else xs ++ x ∷ []

-- `std::set<int>::insert`.
unfoldable pub set_insert : ℕ → List ℕ → List ℕ
set_insert x [] = x ∷ []
set_insert x (y ∷ ys) =
    if ltb x y then x ∷ y ∷ ys else if x == y then y ∷ ys else y ∷ set_insert x ys

-- `changes_.AddChange(…)` under `if (log)`.
abbrev pub log_change : Bool → Change → LinearMatrix → LinearMatrix
log_change log c l = if log then record l { changes = l.changes ++ c ∷ [] } else l

abbrev pub extract_row : ℕ → LinearMatrix → LinearMatrix
extract_row row l = record l {
  rows_to_extract = tiny_insert l.rows_to_extract (get_phys_row_index l.matrix row);
}

-- `Touch(row, pivotchanged)`.
unfoldable pub touch : LinearMatrix → ℕ → Bool → LinearMatrix
touch l row pivot_changed =
    let l1 = record l { update_rows = set_insert row l.update_rows } in
    if pivot_changed then record l1 { update_pivot = set_insert row l1.update_pivot } else l1

range_from : ℕ → ℕ → List ℕ
range_from zero i = []
range_from (suc left) i = i ∷ range_from left (i + 1)

-- `Init(log)`.
unfoldable pub init : LinearMatrix → Bool → LinearMatrix
unfolding range_from
init l log = record (log_change log init_change l) { rows_to_extract = range_from l.matrix.rows 0 }

-- `LinearMatrix(rows, cols)`.
unfoldable pub linear_matrix : ℕ → ℕ → LinearMatrix
linear_matrix rows cols =
    init
      (record {
        matrix = bit_matrix rows (cols + 64);
        rhs = cols + 63;
        changes = [];
        stash = [];
        rows_to_extract = [];
        update_rows = [];
        update_pivot = [];
      })
      true

-- `InitBit(row, col)`.
unfoldable pub init_bit : LinearMatrix → ℕ → ℕ → LinearMatrix
init_bit l row col = record l { matrix = (xor_bit l.matrix row col).0 }

-- `XorRow(row, equation, log)`.
unfoldable pub xor_row_logged : LinearMatrix → ℕ → List ℕ → Bool → LinearMatrix
xor_row_logged l row equation log =
    let l1 = extract_row row (log_change log (xor_row_change row equation) l) in
    record l1 { matrix = (xor_row l1.matrix row equation).0 }

-- `XorRowtoRow(a, b, log)`, with its result.
unfoldable pub xor_row_to_row_logged : LinearMatrix → ℕ → ℕ → Bool → LinearMatrix × Bool
xor_row_to_row_logged l a b log =
    let l1 = extract_row a (log_change log (xor_row_to_row_change a b) l) in
    let result = xor_row_to_row l1.matrix a b in (record l1 { matrix = result.0 }, result.1)

-- `SortByPivot(log)`; the matrix clears `update_pivot_`.
unfoldable pub sort_by_pivot_logged : LinearMatrix → Bool → LinearMatrix
sort_by_pivot_logged l log =
    let sorted = sort_by_pivot l.matrix l.update_pivot in
    log_change log (sort_change sorted.1) (record l { matrix = sorted.0; update_pivot = [] })

abbrev pub is_contradiction : LinearMatrix → ℕ → Bool
is_contradiction l row = get_pivot l.matrix row == l.rhs

-- The body of the inner loop of `EpsilonGauss` at row `i`; `true` means that the loop goes on.
unfoldable pub eliminate_row : ℕ → ℕ → Bool → ℕ → LinearMatrix → LinearMatrix × Bool
eliminate_row row pivot backtrack i l =
    if i == row
    then (l, true)
    else if get_bit l.matrix i pivot
    then (let result = xor_row_to_row_logged l i row backtrack in
        let l1 = if result.1 then touch result.0 i true else result.0 in
        (l1, not (is_contradiction l1 i)))
    else (l, true)

-- The inner loop from row `i` on, with `left` rows to go.
unfoldable pub eliminate : ℕ → ℕ → Bool → ℕ → ℕ → LinearMatrix → LinearMatrix × Bool
eliminate row pivot backtrack zero i l = (l, true)
eliminate row pivot backtrack (suc left) i l =
    let done = eliminate_row row pivot backtrack i l in
    let rest = eliminate row pivot backtrack left (i + 1) done.0 in if done.1 then rest else done

-- The body of the outer loop for `row`, which has been taken out of `update_rows_`; `false` means
-- that `EpsilonGauss` returns false.
unfoldable pub gauss_row : ℕ → Bool → LinearMatrix → LinearMatrix × Bool
gauss_row row backtrack l =
    let pivot = get_pivot l.matrix row in
    if is_contradiction l row
    then (l, false)
    else if pivot == nopivot l.matrix
    then (l, true)
    else eliminate row pivot backtrack l.matrix.rows 0 l

-- `EpsilonGauss(backtrack)` with fuel; `none` means that the fuel ran out.
unfoldable pub epsilon_gauss : ℕ → Bool → LinearMatrix → Option (LinearMatrix × Bool)
epsilon_gauss zero backtrack l = none
epsilon_gauss (suc fuel) backtrack l = elim l.update_rows [
  | [] ↦ some (sort_by_pivot_logged l backtrack, true)
  | row ∷ rest ↦
      let done = gauss_row row backtrack (record l { update_rows = rest }) in
      let more = epsilon_gauss fuel backtrack done.0 in
      if done.1 then more else some (done.0, false)
]

-- One round of the loop over `equation[i]`, `i ≥ 1`, where `equation[0]` is the pivot of `row`. The
-- source subtracts 1 from the upper bound `above`, and tests the result against 0.
unfoldable pub reduce_at : ℕ → Bool → ℕ → ℕ → LinearMatrix → LinearMatrix
reduce_at row backtrack col zero l = l
reduce_at row backtrack col (suc r) l =
    if not (row == r) && get_pivot l.matrix r == col
    then (xor_row_to_row_logged l row r backtrack).0
    else l

unfoldable pub reduce_row : ℕ → Bool → List ℕ → LinearMatrix → LinearMatrix
reduce_row row backtrack [] l = l
reduce_row row backtrack (col ∷ equation) l =
    reduce_row row backtrack equation
      (reduce_at row backtrack col (get_pivot_upper_bound l.matrix col) l)

-- `if (GetBit(r, equation[0])) XorRow(r, equation)` for the rows from `r` on, `left` in number.
unfoldable pub substitute : List ℕ → Bool → ℕ → ℕ → LinearMatrix → LinearMatrix
substitute equation backtrack zero r l = l
substitute equation backtrack (suc left) r l =
    substitute equation backtrack left (r + 1) (
      if get_bit l.matrix r (get_or equation 0 0) then xor_row_logged l r equation backtrack else l)

-- The rows whose pivot is an `equation[i]` with `i ≥ 1` have to be eliminated again.
unfoldable pub touch_at : ℕ → ℕ → LinearMatrix → LinearMatrix
touch_at col zero l = l
touch_at col (suc r) l = if get_pivot l.matrix r == col then touch l r false else l

unfoldable pub touch_pivots : List ℕ → LinearMatrix → LinearMatrix
touch_pivots [] l = l
touch_pivots (col ∷ equation) l =
    touch_pivots equation (touch_at col (get_pivot_upper_bound l.matrix col) l)

-- The part of `AddEquation` before `EpsilonGauss`, for the equation `first ∷ rest`.
unfoldable pub enter_equation : ℕ → LinearMatrix → ℕ → List ℕ → Bool → LinearMatrix
enter_equation zero l first rest backtrack = touch_pivots rest l
enter_equation (suc row) l first rest backtrack =
    if get_pivot l.matrix row == first
    then reduce_row row backtrack rest
        (touch (xor_row_logged l row (first ∷ rest) backtrack) row true)
    else touch_pivots rest (substitute (first ∷ rest) backtrack (suc row) 0 l)

-- `if (c) equation.push_back(RHS_);`
abbrev pub with_rhs : ℕ → Bool → List ℕ → List ℕ
with_rhs rhs c equation = if c then equation ++ rhs ∷ [] else equation

-- `AddEquation(equation, c, backtrack)`, with the fuel of `EpsilonGauss`. The source asserts that the
-- equation is not empty; here that, too, gives `none`.
unfoldable pub add_equation : ℕ → LinearMatrix → List ℕ → Bool → Bool → Option (LinearMatrix × Bool)
add_equation fuel l [] c backtrack = none
add_equation fuel l (first ∷ rest) c backtrack =
    let above = get_pivot_upper_bound l.matrix first in
    let l1 = enter_equation above l first (with_rhs l.rhs c rest) backtrack in
    elim l1.update_rows [ [] ↦ some (l1, true) | _ ↦ epsilon_gauss fuel backtrack l1 ]
