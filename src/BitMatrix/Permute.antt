-- ===== src/BitMatrix/Permute.antt =====
-- `ApplyPermutation`, `GetLast`, `GetBitsSet` and `GetPivotRowCount` of src/bit_matrix.cpp. The permutation is applied
-- forwards or backwards, down to the index -1, so that an index is kept here as its successor.
use nldtool.Base.{
  ℕ, zero, suc, ◌+◌, ◌-◌, refl, Bool, true, false, List, [], ◌∷◌, ◌==◌, if◌then◌else◌, Bool-cases,
  inl, inr,
}
use nldtool.BitMatrix.{BitMatrix, Row, row_at}
use nldtool.BitMatrix.Sort.{Permutation, SameData, store_row}

abbrev step_index : Bool → ℕ → ℕ
step_index inverse i = if inverse then i - 1 else i + 1

-- `if (writeindex == readindex && remove != removeend) writeindex = readindex = (*remove).first;`
unfoldable pub jump : ℕ → ℕ → List (ℕ × Row) → ℕ × ℕ
jump write read [] = (write, read)
jump write read (next ∷ rest) = if write == read then (next.0 + 1, next.0 + 1) else (write, read)

-- `while (remove != removeend && readindex == (*remove).first) { remove += step; readindex += step; }`
unfoldable pub skip : Bool → List (ℕ × Row) → ℕ → List (ℕ × Row) × ℕ
skip inverse [] read = ([], read)
skip inverse (next ∷ rest) read =
    let later = skip inverse rest (step_index inverse read) in
    if read == next.0 + 1 then later else (next ∷ rest, read)

-- The loop, with the rows as fuel: `write` moves on in every round.
unfoldable pub apply_loop :
    ℕ → Bool → ℕ → BitMatrix → ℕ → ℕ → List (ℕ × Row) → List (ℕ × Row) → BitMatrix
apply_loop zero inverse end m write read remove insert = m
apply_loop (suc fuel) inverse end m write read remove [] = m
apply_loop (suc fuel) inverse end m write read remove (next ∷ rest) =
    let start = jump write read remove in
    let skipped = skip inverse remove start.1 in
    let here = start.0 == next.0 + 1 in
    let moved = if here then next.1 else row_at m (skipped.1 - 1) in
    let later =
      apply_loop fuel inverse end (store_row m (start.0 - 1) moved) (step_index inverse start.0)
        (if here then skipped.1 else step_index inverse skipped.1) skipped.0
        (if here then rest else next ∷ rest) in
    if write == end then m else later

unfoldable pub reverse_rows : List (ℕ × Row) → List (ℕ × Row) → List (ℕ × Row)
reverse_rows [] done = done
reverse_rows (x ∷ xs) done = reverse_rows xs (x ∷ done)

-- From the first row to be removed on.
unfoldable pub apply_from : Bool → ℕ → BitMatrix → List (ℕ × Row) → List (ℕ × Row) → BitMatrix
apply_from inverse end m [] insert = m
apply_from inverse end m (first ∷ remove) insert =
    apply_loop (m.rows + 1) inverse end m (first.0 + 1) (first.0 + 1) (first ∷ remove) insert

-- `ApplyPermutation(perm, inverse)`.
unfoldable pub apply_permutation : BitMatrix → Permutation → Bool → BitMatrix
apply_permutation m perm false = apply_from false (perm.end + 1) m perm.from perm.to
apply_permutation m perm true =
    apply_from true perm.start m (reverse_rows perm.to []) (reverse_rows perm.from [])

apply_loop-SameData :
    (fuel : ℕ) (inverse : Bool) (end : ℕ) (m : BitMatrix) (write read : ℕ)
    (remove insert : List (ℕ × Row))
    → SameData m (apply_loop fuel inverse end m write read remove insert)
unfolding apply_loop store_row
apply_loop-SameData zero inverse end m write read remove insert = record {
  rows = refl;
  cols64 = refl;
  words = refl;
}
apply_loop-SameData (suc fuel) inverse end m write read remove [] = record {
  rows = refl;
  cols64 = refl;
  words = refl;
}
apply_loop-SameData (suc fuel) inverse end m write read remove (next ∷ rest) =
    elim (Bool-cases (write == end)) [
      | inl t ↦ rw t (record { rows = refl; cols64 = refl; words = refl })
      | inr f ↦ rw f (
          let ih = apply_loop-SameData fuel inverse end (store_row m _ _) _ _ _ _ in
          record { rows = ih.rows; cols64 = ih.cols64; words = ih.words })
    ]

apply_from-SameData :
    (inverse : Bool) (end : ℕ) (m : BitMatrix) (remove insert : List (ℕ × Row))
    → SameData m (apply_from inverse end m remove insert)
unfolding apply_from
apply_from-SameData inverse end m [] insert = record { rows = refl; cols64 = refl; words = refl }
apply_from-SameData inverse end m (first ∷ remove) insert =
    apply_loop-SameData (m.rows + 1) inverse end m (first.0 + 1) (first.0 + 1) (first ∷ remove)
      insert

-- `ApplyPermutation`, forwards and backwards, keeps the sizes of the matrix and every word of it.
pub apply_permutation-SameData :
    (m : BitMatrix) (perm : Permutation) (inverse : Bool)
    → SameData m (apply_permutation m perm inverse)
unfolding apply_permutation
apply_permutation-SameData m perm false =
    apply_from-SameData false (perm.end + 1) m perm.from perm.to
apply_permutation-SameData m perm true =
    apply_from-SameData true perm.start m (reverse_rows perm.to []) (reverse_rows perm.from [])
