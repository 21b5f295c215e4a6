-- ===== src/Tests/Masks.antt =====
-- src/bitmask.cpp and src/condition.cpp at concrete words.
use nldtool.Base.{
  ℕ, ◌+◌, ◌*◌, ◌/◌, ◌%◌, ◌≡◌, ◌<◌, ◌↔◌, refl, arith, [], ◌&&◌, ◌||◌, ◌==◌, if◌then◌else◌, bit_and,
  bit_or, length, map, get_or,
}
use nldtool.Bits.{bit, not64, shr}
use nldtool.Utils.{mask}
use nldtool.Bitmask.{
  Bitmask, bitmask, get_word_mask, get_bit, get_bitpos_list, first, set_bits, and_assign, or_assign,
}
use nldtool.Bitmask.Positions.{listed_pos, front, listed-get_bitpos_list}
use nldtool.Bitmask.Combine.{IsBitmask, SameShape-IsBitmask, set_bits-SameShape, set_bits-view}
use nldtool.Bitmask.Assign.{selected, and_assign-IsBitmask, or_assign-IsBitmask}
use nldtool.Condition.{pairs4_table, get_num_pairs, get_char, from_char}
use nldtool.Condition.Two
use nldtool.Condition.Three
use nldtool.Condition.Network.{possible}
use nldtool.Condition.Single.{allowed, read_pairs, tables-allowed}
use nldtool.Condition.Project.{
  pair_at, pairs_at, two_get_bits-possible, three_get_bits-possible, three_get_pairs-possible,
}
use nldtool.Condition.Merge.{two_merges-keep, three_merges-keep}
use nldtool.Condition.Layout.{two_filters-layout, three_filters-layout}

bitmask-IsBitmask : IsBitmask (bitmask 32)
unfolding bitmask mask shr not64
bitmask-IsBitmask = (omega arith, refl, omega arith, tt)

-- Bits 1 and 5 of word 3, and bits 5 and 6 of words 3 and 4.
abbrev left_mask : Bitmask
left_mask = set_bits (bitmask 32) 3 34

abbrev right_mask : Bitmask
right_mask = set_bits (set_bits (bitmask 32) 4 64) 3 32

left-IsBitmask : IsBitmask left_mask
left-IsBitmask =
    SameShape-IsBitmask (bitmask 32) left_mask bitmask-IsBitmask
      (set_bits-SameShape (bitmask 32) 3 34 bitmask-IsBitmask.3 bitmask-IsBitmask.2)

half-IsBitmask : IsBitmask (set_bits (bitmask 32) 4 64)
half-IsBitmask =
    SameShape-IsBitmask (bitmask 32) _ bitmask-IsBitmask
      (set_bits-SameShape (bitmask 32) 4 64 bitmask-IsBitmask.3 bitmask-IsBitmask.2)

right-IsBitmask : IsBitmask right_mask
right-IsBitmask =
    SameShape-IsBitmask (set_bits (bitmask 32) 4 64) right_mask half-IsBitmask
      (set_bits-SameShape (set_bits (bitmask 32) 4 64) 3 32 half-IsBitmask.3 half-IsBitmask.2)

and_assign-IsBitmask_example :
    IsBitmask (and_assign left_mask right_mask)
    × ((w b : ℕ)
        → b < left_mask.word_size
        → selected (and_assign left_mask right_mask) w b
          ≡ (selected left_mask w b && selected right_mask w b))
and_assign-IsBitmask_example =
    and_assign-IsBitmask left_mask right_mask left-IsBitmask right-IsBitmask

or_assign-IsBitmask_example :
    IsBitmask (or_assign left_mask right_mask)
    × ((w b : ℕ)
        → b < left_mask.word_size
        → selected (or_assign left_mask right_mask) w b
          ≡ (selected left_mask w b || selected right_mask w b))
or_assign-IsBitmask_example =
    or_assign-IsBitmask left_mask right_mask left-IsBitmask right-IsBitmask

set_bits-view_example : get_word_mask (set_bits left_mask 3 4) 3 ≡ (
    if 3 == 3
    then bit_or (get_word_mask left_mask 3) (bit_and 4 left_mask.word_mask)
    else get_word_mask left_mask 3)
set_bits-view_example = set_bits-view left_mask 3 4 3 left-IsBitmask.3

two_get_bits-possible_example :
    (bit (Two.get_bit0 0x1248) 2 ≡ possible 16 (pair_at 2 0) 0x1248 2)
    × (bit (Two.get_bit1 0x1248) 2 ≡ possible 16 (pair_at 2 1) 0x1248 2)
two_get_bits-possible_example = two_get_bits-possible 0x1248 2 (omega arith)

three_get_bits-possible_example :
    (bit (Three.get_bit0 0x1248) 2 ≡ possible 64 (pair_at 3 0) 0x1248 2)
    × (bit (Three.get_bit1 0x1248) 2 ≡ possible 64 (pair_at 3 1) 0x1248 2)
    × (bit (Three.get_bit2 0x1248) 2 ≡ possible 64 (pair_at 3 2) 0x1248 2)
three_get_bits-possible_example = three_get_bits-possible 0x1248 2 (omega arith)

three_get_pairs-possible_example :
    (bit (Three.get_bits01 0x1248) 9 ≡ possible 64 (pairs_at 3 0) 0x1248 9)
    × (bit (Three.get_bits12 0x1248) 9 ≡ possible 64 (pairs_at 3 1) 0x1248 9)
three_get_pairs-possible_example = three_get_pairs-possible 0x1248 9 (omega arith)

two_merges-keep_example :
    (bit (Two.merge_bit0 0x1248 9) 6 ≡ (bit 0x1248 6 && bit 9 (pair_at 2 0 6)))
    × (bit (Two.merge_bit1 0x1248 9) 6 ≡ (bit 0x1248 6 && bit 9 (pair_at 2 1 6)))
two_merges-keep_example = two_merges-keep 0x1248 9 6 (omega arith)

three_merges-keep_example :
    (bit (Three.merge_bit0 0x1248 9) 6 ≡ (bit 0x1248 6 && bit 9 (pair_at 3 0 6)))
    × (bit (Three.merge_bit1 0x1248 9) 6 ≡ (bit 0x1248 6 && bit 9 (pair_at 3 1 6)))
    × (bit (Three.merge_bit2 0x1248 9) 6 ≡ (bit 0x1248 6 && bit 9 (pair_at 3 2 6)))
    × (bit (Three.merge_bits01 0x1248 9) 6 ≡ (bit 0x1248 6 && bit 9 (pairs_at 3 0 6)))
    × (bit (Three.merge_bits12 0x1248 9) 6 ≡ (bit 0x1248 6 && bit 9 (pairs_at 3 1 6)))
three_merges-keep_example = three_merges-keep 0x1248 9 6 (omega arith)

-- The condition `-`, of 0 and 1, is not one for which the filters read the layout.
two_filters-layout_example :
    (((c p : ℕ) → p < 16 → bit (Two.filter0 c 9) p ≡ (bit c p && bit 9 (pair_at 2 0 p)))
      ↔ ((bit 9 0 ≡ bit 9 2) × (bit 9 1 ≡ bit 9 3)))
    × (((c p : ℕ) → p < 16 → bit (Two.filter1 c 9) p ≡ (bit c p && bit 9 (pair_at 2 1 p)))
        ↔ ((bit 9 0 ≡ bit 9 1) × (bit 9 2 ≡ bit 9 3)))
two_filters-layout_example = two_filters-layout 9 (omega arith)

three_filters-layout_example :
    (((c p : ℕ) → p < 64 → bit (Three.filter0 c 9) p ≡ (bit c p && bit 9 (pair_at 3 0 p)))
      ↔ ((bit 9 0 ≡ bit 9 2) × (bit 9 1 ≡ bit 9 3)))
    × (((c p : ℕ) → p < 64 → bit (Three.filter1 c 9) p ≡ (bit c p && bit 9 (pair_at 3 1 p)))
        ↔ ((bit 9 0 ≡ bit 9 1) × (bit 9 0 ≡ bit 9 2) × (bit 9 0 ≡ bit 9 3)))
    × (((c p : ℕ) → p < 64 → bit (Three.filter2 c 9) p ≡ (bit c p && bit 9 (pair_at 3 2 p)))
        ↔ ((bit 9 0 ≡ bit 9 1) × (bit 9 2 ≡ bit 9 3)))
three_filters-layout_example = three_filters-layout 9 (omega arith)

tables-allowed_example :
    (get_num_pairs 13 ≡ length (allowed 13))
    × (read_pairs (get_num_pairs 13) 0 13 ≡ allowed 13)
    × (get_or pairs4_table 13 [] ≡ map (λ p. p % 2 + 16 * (p / 2)) (allowed 13))
    × (from_char (get_char 13) ≡ 13)
tables-allowed_example = tables-allowed 13 (omega arith)

listed-get_bitpos_list_example :
    (listed_pos (record { word = 3; bit_index = 5 }) (get_bitpos_list left_mask)
      ≡ get_bit left_mask (record { word = 3; bit_index = 5 }))
    × (first left_mask.masks ≡ front (get_bitpos_list left_mask))
listed-get_bitpos_list_example =
    listed-get_bitpos_list left_mask (record { word = 3; bit_index = 5 }) (omega arith)
      left-IsBitmask.3
