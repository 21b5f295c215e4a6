-- ===== src/BitMatrix/Sort.antt =====
-- `SortByPivot` of src/bit_matrix.cpp, and `Permutation` of src/change.h. A `std::set<int>` is the
-- increasing list of its elements; of rows with one pivot `std::sort` may give any order, and here
-- they keep theirs.
pub mod Weights
pub mod Merge
pub mod Round
pub mod Keeps
pub mod Distinct
pub mod Wf
use nldtool.Base.{
  ℕ, zero, suc, ◌+◌, List, [], ◌∷◌, ◌++◌, ◌≡◌, refl, arith, List-cases, inl, inr, subst, leb, ◌==◌,
  if◌then◌else◌, set, map, ◌||◌,
}
use nldtool.BitMatrix.{BitMatrix, Row, row_at, get_phys_row_index}

pub record Permutation : Type 0 where
  pub start : ℕ
  pub end : ℕ
  pub from : List (ℕ × Row)
  pub to : List (ℕ × Row)

-- A `Permutation` as declared, before anything is stored in it.
abbrev pub no_permutation : Permutation
no_permutation = record { start = 0; end = 0; from = []; to = [] }

unfoldable pub insert_row : Row → List Row → List Row
insert_row r [] = r ∷ []
insert_row r (s ∷ rows) = if leb r.pivot s.pivot then r ∷ s ∷ rows else s ∷ insert_row r rows

unfoldable pub sort_rows : List Row → List Row
sort_rows [] = []
sort_rows (r ∷ rows) = insert_row r (sort_rows rows)

-- The loop's variables: `write` and `read` are indices into `row_`, `remove` and `inserting` what is
-- left of `changed` and `to_row`.
pub record Sorting : Type 0 where
  pub matrix : BitMatrix
  pub write : ℕ
  pub read : ℕ
  pub remove : List ℕ
  pub inserting : List Row
  pub placed : List (ℕ × Row)

-- `if (writeindex == readindex && remove != removeend) writeindex = readindex = *remove;`
unfoldable pub skip_gap : Sorting → Sorting
skip_gap s = elim s.remove [
  | [] ↦ s
  | next ∷ rest ↦ if s.write == s.read then record s { write = next; read = next } else s
]

-- `while (remove != removeend && readindex == *remove) { ++remove; ++readindex; }`
unfoldable pub skip_removed : List ℕ → ℕ → List ℕ × ℕ
skip_removed [] read = ([], read)
skip_removed (next ∷ rest) read =
    let later = skip_removed rest (read + 1) in if read == next then later else (next ∷ rest, read)

-- The assignment to `row_[writeindex]` with `rowinv_` after it.
unfoldable pub store_row : BitMatrix → ℕ → Row → BitMatrix
store_row m i r =
    let m1 = record m { row_table = set m.row_table i r } in
    record m1 { row_inverse = set m.row_inverse (get_phys_row_index m1 i) i }

-- One round of the loop, where `next` is `*insert` and `rest` what follows it.
unfoldable pub place_row : Sorting → Row → List Row → Sorting
unfolding store_row
place_row s next rest =
    if s.read == s.matrix.rows || leb next.pivot (row_at s.matrix s.read).pivot
    then (record s {
      matrix = store_row s.matrix s.write next;
      inserting = rest;
      placed = s.placed ++ (s.write, next) ∷ [];
      write = s.write + 1;
    })
    else record s {
      matrix = store_row s.matrix s.write (row_at s.matrix s.read);
      read = s.read + 1;
      write = s.write + 1;
    }

unfoldable pub sort_round : Sorting → Row → List Row → Sorting
sort_round s next rest =
    let s1 = skip_gap s in
    let skipped = skip_removed s1.remove s1.read in
    place_row (record s1 { remove = skipped.0; read = skipped.1 }) next rest

-- `write` grows in each round, so as many rounds as there are rows are enough.
unfoldable pub sort_loop : ℕ → Sorting → Sorting
sort_loop zero s = s
sort_loop (suc fuel) s = elim s.inserting [
  | [] ↦ s
  | next ∷ rest ↦
      let more = sort_loop fuel (sort_round s next rest) in
      if s.write == s.matrix.rows then s else more
]

-- `SortByPivot(changed, perm)`: the matrix and the permutation; `changed` is empty afterwards.
unfoldable pub sort_by_pivot : BitMatrix → List ℕ → BitMatrix × Permutation
unfolding sort_rows insert_row sort_loop sort_round skip_gap skip_removed place_row
sort_by_pivot m [] = (m, no_permutation)
sort_by_pivot m (first ∷ changed) =
    let moved = map (row_at m) (first ∷ changed) in
    let s = sort_loop m.rows (record {
      matrix = m;
      write = first;
      read = first;
      remove = first ∷ changed;
      inserting = sort_rows moved;
      placed = [];
    }) in
    (
      s.matrix,
      record {
        start = first;
        end = s.write;
        from = map (λ i. (i, row_at m i)) (first ∷ changed);
        to = s.placed;
      },
    )

-- Sorting moves entries of `row_` and leaves `data_` alone.
pub record SameData (m m' : BitMatrix) : Type 0 where
  pub rows : m'.rows ≡ m.rows
  pub cols64 : m'.cols64 ≡ m.cols64
  pub words : m'.words ≡ m.words

place_row-SameData :
    (s : Sorting) (next : Row) (rest : List Row) → SameData s.matrix (place_row s next rest).matrix
unfolding place_row
place_row-SameData s next rest = ground arith

skip_gap_matrix : (s : Sorting) → (skip_gap s).matrix ≡ s.matrix
unfolding skip_gap
skip_gap_matrix s = elim (List-cases s.remove) [
  | inl e ↦ rw (e, skip_gap)
  | inr (next, rest, e) ↦ rw (e, skip_gap) (ground arith)
]

sort_round-SameData :
    (s : Sorting) (next : Row) (rest : List Row) → SameData s.matrix (sort_round s next rest).matrix
unfolding sort_round
sort_round-SameData s next rest =
    subst (λ m. SameData m (sort_round s next rest).matrix) (skip_gap_matrix s)
      (place_row-SameData _ next rest)

sort_loop-SameData : (fuel : ℕ) (s : Sorting) → SameData s.matrix (sort_loop fuel s).matrix
unfolding sort_loop
sort_loop-SameData zero s = record { rows = refl; cols64 = refl; words = refl }
sort_loop-SameData (suc fuel) s = elim (List-cases s.inserting) [
  | inl e ↦ rw (e, sort_loop) (record { rows = refl; cols64 = refl; words = refl })
  | inr (next, rest, e) ↦
      let s' = sort_round s next rest in
      rw (e, sort_loop)
        (ground (arith, sort_round-SameData s next rest, sort_loop-SameData fuel s'))
]

-- `SortByPivot` keeps the sizes of the matrix and every word of it.
pub sort_by_pivot-SameData :
    (m : BitMatrix) (changed : List ℕ) → SameData m (sort_by_pivot m changed).0
unfolding sort_by_pivot
sort_by_pivot-SameData m [] = record { rows = refl; cols64 = refl; words = refl }
sort_by_pivot-SameData m (first ∷ changed) = sort_loop-SameData m.rows _
