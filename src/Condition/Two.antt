-- ===== src/Condition/Two.antt =====
-- `Condition<2>` of src/condition.h and src/condition.cpp: a word of 16 bits, one for each value of two
-- pairs.
use nldtool.Base.{ℕ, ◌+◌, List, [], ◌∷◌, bit_and, bit_or, if◌then◌else◌}
use nldtool.Bits.{bit, shr, shl}
use nldtool.Condition.{repeat_loop, spread_loop, merge_loop}

-- `Filter0`, `Filter1` and `Filter`.
unfoldable pub filter0 : ℕ → ℕ → ℕ
filter0 c bc = bit_and c (repeat_loop 4 0 bc 0)

unfoldable pub filter1 : ℕ → ℕ → ℕ
filter1 c bc = bit_and c (spread_loop 4 0 0x000f 4 bc 0)

unfoldable pub filter : ℕ → ℕ → ℕ
filter c other = bit_and c other

-- `onebit_to_twobit_cond`.
unfoldable pub onebit_to_twobit_cond : List (List ℕ)
onebit_to_twobit_cond =
    (0 ∷ 1 ∷ 4 ∷ 5 ∷ [])
    ∷ (2 ∷ 3 ∷ 6 ∷ 7 ∷ [])
    ∷ (8 ∷ 9 ∷ 12 ∷ 13 ∷ [])
    ∷ (10 ∷ 11 ∷ 14 ∷ 15 ∷ [])
    ∷ []

-- The loops of `Condition<2>(bit1, bit0)`, over `j` in a row of the table and over `i`.
unfoldable pub row_loop : List ℕ → ℕ → ℕ → ℕ → ℕ
row_loop [] j bit0 c = c
row_loop (k ∷ rest) j bit0 c =
    row_loop rest (j + 1) bit0 (if bit bit0 j then bit_or c (shl 1 k) else c)

unfoldable pub table_loop : List (List ℕ) → ℕ → ℕ → ℕ → ℕ → ℕ
table_loop [] i bit1 bit0 c = c
table_loop (row ∷ rest) i bit1 bit0 c =
    table_loop rest (i + 1) bit1 bit0 (if bit bit1 i then row_loop row 0 bit0 c else c)

unfoldable pub from_bits : ℕ → ℕ → ℕ
from_bits bit1 bit0 = table_loop onebit_to_twobit_cond 0 bit1 bit0 0

-- `MergeBit0` and `MergeBit1`.
unfoldable pub merge_bit0 : ℕ → ℕ → ℕ
merge_bit0 c cond = merge_loop (0xfafa ∷ 0xf5f5 ∷ 0xafaf ∷ 0x5f5f ∷ []) 0 cond c

unfoldable pub merge_bit1 : ℕ → ℕ → ℕ
merge_bit1 c cond = merge_loop (0xffcc ∷ 0xff33 ∷ 0xccff ∷ 0x33ff ∷ []) 0 cond c

-- `GetBit0()` and `GetBit1()`; the constructor of `Condition<1>` masks with 0xf.
unfoldable pub get_bit0 : ℕ → ℕ
get_bit0 c =
    let h1 = bit_or c (shr c 2) in
    let h2 = bit_or h1 (shr h1 8) in bit_and (bit_or (bit_and h2 0x3) (bit_and (shr h2 2) 0xc)) 0xf

unfoldable pub get_bit1 : ℕ → ℕ
get_bit1 c =
    let h1 = bit_or (shr c 4) c in
    let h2 = bit_and h1 0x0f0f in
    let h3 = bit_or h2 (shr h2 4) in
    let h4 = bit_or h3 (shr h3 1) in
    let b1 = bit_or 0 (bit_and 1 h4) in
    let b2 = bit_or b1 (bit_and 2 (shr h4 1)) in
    let b3 = bit_or b2 (bit_and 4 (shr h4 2)) in
    let b4 = bit_or b3 (bit_and 8 (shr h4 3)) in bit_and b4 0xf
