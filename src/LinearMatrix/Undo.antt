-- ===== src/LinearMatrix/Undo.antt =====
-- `Apply` and `Undo` of the changes of src/change.cpp, and `Undo`, `UndoAndRestore` and `FixChanges` of
-- src/linear_matrix.cpp.
use nldtool.Base.{ℕ, Bool, true, false, List, [], ◌∷◌}
use nldtool.BitMatrix.{xor_bit}
use nldtool.BitMatrix.Permute.{apply_permutation}
use nldtool.Change.{
  Change, init_change, sort_change, xor_row_change, xor_row_to_row_change, xor_bit_change,
}
use nldtool.LinearMatrix.{
  LinearMatrix, init, xor_row_logged, xor_row_to_row_logged, log_change, extract_row,
}

-- `XorBit(row, col, log)` and `ApplyPermutation(perm, inverse, log)` of `LinearMatrix`, which the changes
-- call without a log.
unfoldable pub xor_bit_logged : LinearMatrix → ℕ → ℕ → Bool → LinearMatrix
xor_bit_logged l row col log =
    let l1 = extract_row row (log_change log (xor_bit_change row col) l) in
    record l1 { matrix = (xor_bit l1.matrix row col).0 }

-- `Apply` of the subclasses.
unfoldable pub apply_change : Change → LinearMatrix → LinearMatrix
apply_change init_change l = init l false
apply_change (sort_change perm) l = record l { matrix = apply_permutation l.matrix perm false }
apply_change (xor_row_change row equation) l = xor_row_logged l row equation false
apply_change (xor_row_to_row_change a b) l = (xor_row_to_row_logged l a b false).0
apply_change (xor_bit_change row col) l = xor_bit_logged l row col false

-- `Undo` of the subclasses.
unfoldable pub undo_change : Change → LinearMatrix → LinearMatrix
undo_change init_change l = init l false
undo_change (sort_change perm) l = record l { matrix = apply_permutation l.matrix perm true }
undo_change (xor_row_change row equation) l = xor_row_logged l row equation false
undo_change (xor_row_to_row_change a b) l = (xor_row_to_row_logged l a b false).0
undo_change (xor_bit_change row col) l = xor_bit_logged l row col false

-- `ChangeList::Apply` and `ChangeList::Undo`, which goes backwards.
unfoldable pub apply_changes : List Change → LinearMatrix → LinearMatrix
apply_changes [] l = l
apply_changes (c ∷ changes) l = apply_changes changes (apply_change c l)

unfoldable pub undo_changes : List Change → LinearMatrix → LinearMatrix
undo_changes [] l = l
undo_changes (c ∷ changes) l = undo_change c (undo_changes changes l)

-- `Undo()`, `UndoAndRestore()` and `FixChanges()`.
unfoldable pub undo : LinearMatrix → LinearMatrix
undo l =
    let l1 = undo_changes l.changes (record l { update_rows = []; update_pivot = [] }) in
    record l1 { changes = []; stash = l1.changes }

unfoldable pub undo_and_restore : LinearMatrix → LinearMatrix
undo_and_restore l =
    let l1 = undo_changes l.changes (record l { update_rows = []; update_pivot = [] }) in
    let l2 = apply_changes l1.stash l1 in record l2 { changes = []; stash = [] }

unfoldable pub fix_changes : LinearMatrix → LinearMatrix
fix_changes l = record l { changes = [] }
