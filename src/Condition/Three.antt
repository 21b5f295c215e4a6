-- ===== src/Condition/Three.antt =====
-- `Condition<3>` of src/condition.h and src/condition.cpp: a word of 64 bits, one for each value of three
-- pairs.
use nldtool.Base.{ℕ, [], ◌∷◌, bit_and, bit_or}
use nldtool.Bits.{shr}
use nldtool.Condition.{repeat_loop, spread_loop, merge_loop}

-- `Filter0`, `Filter1`, `Filter2` and `Filter`.
unfoldable pub filter0 : ℕ → ℕ → ℕ
filter0 c bc = bit_and c (repeat_loop 16 0 bc 0)

unfoldable pub filter1 : ℕ → ℕ → ℕ
filter1 c bc = bit_and c (spread_loop 4 0 0x000f000f000f000f 4 bc 0)

unfoldable pub filter2 : ℕ → ℕ → ℕ
filter2 c bc = bit_and c (spread_loop 4 0 0x000000000000ffff 16 bc 0)

unfoldable pub filter : ℕ → ℕ → ℕ
filter c other = bit_and c other

-- `MergeBit0`, `MergeBit1` and `MergeBit2`.
unfoldable pub merge_bit0 : ℕ → ℕ → ℕ
merge_bit0 c cond =
    merge_loop
      (0xffaaffaaffaaffaa ∷ 0xff55ff55ff55ff55 ∷ 0xaaffaaffaaffaaff ∷ 0x55ff55ff55ff55ff ∷ []) 0
      cond c

unfoldable pub merge_bit1 : ℕ → ℕ → ℕ
merge_bit1 c cond =
    merge_loop
      (0xffffccccffffcccc ∷ 0xffff3333ffff3333 ∷ 0xccccffffccccffff ∷ 0x3333ffff3333ffff ∷ []) 0
      cond c

unfoldable pub merge_bit2 : ℕ → ℕ → ℕ
merge_bit2 c cond =
    merge_loop
      (0xfffffffff0f0f0f0 ∷ 0xffffffff0f0f0f0f ∷ 0xf0f0f0f0ffffffff ∷ 0x0f0f0f0fffffffff ∷ []) 0
      cond c

-- `MergeBits01` and `MergeBits12`.
unfoldable pub merge_bits01 : ℕ → ℕ → ℕ
merge_bits01 c cond =
    merge_loop
      (0xffffffeeffffffee ∷ 0xffffffddffffffdd ∷ 0xffffffbbffffffbb ∷ 0xffffff77ffffff77
        ∷ 0xffffeeffffffeeff ∷ 0xffffddffffffddff ∷ 0xffffbbffffffbbff ∷ 0xffff77ffffff77ff
        ∷ 0xffeeffffffeeffff ∷ 0xffddffffffddffff ∷ 0xffbbffffffbbffff ∷ 0xff77ffffff77ffff
        ∷ 0xeeffffffeeffffff ∷ 0xddffffffddffffff ∷ 0xbbffffffbbffffff ∷ 0x77ffffff77ffffff ∷ [])
      0 cond c

unfoldable pub merge_bits12 : ℕ → ℕ → ℕ
merge_bits12 c cond =
    merge_loop
      (0xfffffffffffffcfc ∷ 0xfffffffffffff3f3 ∷ 0xffffffffffffcfcf ∷ 0xffffffffffff3f3f
        ∷ 0xfffffffffcfcffff ∷ 0xfffffffff3f3ffff ∷ 0xffffffffcfcfffff ∷ 0xffffffff3f3fffff
        ∷ 0xfffffcfcffffffff ∷ 0xfffff3f3ffffffff ∷ 0xffffcfcfffffffff ∷ 0xffff3f3fffffffff
        ∷ 0xfcfcffffffffffff ∷ 0xf3f3ffffffffffff ∷ 0xcfcfffffffffffff ∷ 0x3f3fffffffffffff ∷ [])
      0 cond c

-- `GetBit0()`, `GetBit1()` and `GetBit2()`.
unfoldable pub get_bit0 : ℕ → ℕ
get_bit0 c =
    let h1 = bit_or c (shr c 2) in
    let h2 = bit_or h1 (shr h1 4) in
    let h3 = bit_or h2 (shr h2 16) in
    let h4 = bit_or h3 (shr h3 32) in bit_and (bit_or (bit_and h4 0x3) (bit_and (shr h4 6) 0xc)) 0xf

unfoldable pub get_bit1 : ℕ → ℕ
get_bit1 c =
    let h1 = bit_or c (shr c 1) in
    let h2 = bit_or h1 (shr h1 4) in
    let h3 = bit_or h2 (shr h2 8) in
    let h4 = bit_or h3 (shr h3 32) in
    let h5 = bit_or (bit_and h4 0x10001) (shr (bit_and h4 0x40004) 1) in
    bit_and (bit_or (bit_and h5 0x3) (bit_and (shr h5 14) 0xc)) 0xf

unfoldable pub get_bit2 : ℕ → ℕ
get_bit2 c =
    let h1 = bit_or c (shr c 1) in
    let h2 = bit_or h1 (shr h1 2) in
    let h3 = bit_or h2 (shr h2 8) in
    let h4 = bit_or h3 (shr h3 16) in
    let h5 = bit_or (bit_and h4 0x100000001) (shr (bit_and h4 0x1000000010) 3) in
    bit_and (bit_or (bit_and h5 0x3) (bit_and (shr h5 30) 0xc)) 0xf

-- `GetBits01()` and `GetBits12()`; the constructor of `Condition<2>` masks with 0xffff.
unfoldable pub get_bits01 : ℕ → ℕ
get_bits01 c =
    let h1 = bit_or c (shr c 4) in
    let h2 = bit_or h1 (shr h1 32) in
    let h3 = bit_or (bit_and h2 0xf000f) (shr (bit_and h2 0xf000f00) 4) in
    bit_and (bit_or (bit_and h3 0xff) (shr (bit_and h3 0xff0000) 8)) 0xffff

unfoldable pub get_bits12 : ℕ → ℕ
get_bits12 c =
    let h1 = bit_or c (shr c 1) in
    let h2 = bit_or h1 (shr h1 8) in
    let h3 = bit_or (bit_and h2 0x1000100010001) (shr (bit_and h2 0x54005400540054) 1) in
    let h4 = bit_or (bit_and h3 0x3000300030003) (shr (bit_and h3 0x28002800280028) 1) in
    let h5 = bit_or (bit_and h4 0x7000700070007) (shr (bit_and h4 0x10001000100010) 1) in
    let h6 = bit_or (bit_and h5 0xf0000000f) (shr (bit_and h5 0xf0000000f0000) 12) in
    bit_and (bit_or (bit_and h6 0xff) (bit_and (shr h6 24) 0xff00)) 0xffff
