-- ===== src/Change.antt =====
-- src/change.h: the changes of a `LinearMatrix` that can be undone. A `std::unique_ptr<Change>` is the
-- value of a data type with a constructor for each subclass.
use nldtool.Base.{ℕ, List}
use nldtool.BitMatrix.Sort.{Permutation}

pub data Change : Type 0 where
  init_change : Change
  sort_change : Permutation → Change
  xor_row_change : ℕ → List ℕ → Change
  xor_row_to_row_change : ℕ → ℕ → Change
  xor_bit_change : ℕ → ℕ → Change
