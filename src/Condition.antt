-- ===== src/Condition.antt =====
-- src/condition.h and src/condition.cpp: sets of bit pairs as words. `Condition<1>` has a bit for each of
-- the four values of a pair, `Condition<2>` sixteen and `Condition<3>` sixty-four. A condition is its
-- word, characters are their codes, and an argument that C++ converts is already in range.
pub mod Single
pub mod Two
pub mod Three
pub mod Network
pub mod Project
pub mod Merge
pub mod Filter
pub mod Layout
use nldtool.Base.{
  ℕ, zero, suc, ◌+◌, ◌*◌, ◌%◌, ◌^◌, Bool, true, false, List, [], ◌∷◌, bit_and, bit_or,
  if◌then◌else◌, get_or, set, replicate,
}
use nldtool.Bits.{bit, shr, shl, not64, sub64}

-- `Condition<1>::NUMPAIRS`, `PAIRS` and `PAIRS4`; an entry that the source leaves out is 0.
unfoldable pub num_pairs_table : List ℕ
num_pairs_table = 0 ∷ 1 ∷ 1 ∷ 2 ∷ 1 ∷ 2 ∷ 2 ∷ 3 ∷ 1 ∷ 2 ∷ 2 ∷ 3 ∷ 2 ∷ 3 ∷ 3 ∷ 4 ∷ []

unfoldable pub pairs_table : List (List ℕ)
pairs_table =
    []
    ∷ (0 ∷ [])
    ∷ (1 ∷ [])
    ∷ (0 ∷ 1 ∷ [])
    ∷ (2 ∷ [])
    ∷ (0 ∷ 2 ∷ [])
    ∷ (1 ∷ 2 ∷ [])
    ∷ (0 ∷ 1 ∷ 2 ∷ [])
    ∷ (3 ∷ [])
    ∷ (0 ∷ 3 ∷ [])
    ∷ (1 ∷ 3 ∷ [])
    ∷ (0 ∷ 1 ∷ 3 ∷ [])
    ∷ (2 ∷ 3 ∷ [])
    ∷ (0 ∷ 2 ∷ 3 ∷ [])
    ∷ (1 ∷ 2 ∷ 3 ∷ [])
    ∷ (0 ∷ 1 ∷ 2 ∷ 3 ∷ [])
    ∷ []

unfoldable pub pairs4_table : List (List ℕ)
pairs4_table =
    []
    ∷ (0x00 ∷ [])
    ∷ (0x01 ∷ [])
    ∷ (0x00 ∷ 0x01 ∷ [])
    ∷ (0x10 ∷ [])
    ∷ (0x00 ∷ 0x10 ∷ [])
    ∷ (0x01 ∷ 0x10 ∷ [])
    ∷ (0x00 ∷ 0x01 ∷ 0x10 ∷ [])
    ∷ (0x11 ∷ [])
    ∷ (0x00 ∷ 0x11 ∷ [])
    ∷ (0x01 ∷ 0x11 ∷ [])
    ∷ (0x00 ∷ 0x01 ∷ 0x11 ∷ [])
    ∷ (0x10 ∷ 0x11 ∷ [])
    ∷ (0x00 ∷ 0x10 ∷ 0x11 ∷ [])
    ∷ (0x01 ∷ 0x10 ∷ 0x11 ∷ [])
    ∷ (0x00 ∷ 0x01 ∷ 0x10 ∷ 0x11 ∷ [])
    ∷ []

-- `GetNumPairs()` and `GetPair(index)`.
unfoldable pub get_num_pairs : ℕ → ℕ
get_num_pairs c = get_or num_pairs_table c 0

unfoldable pub get_pair : ℕ → ℕ → ℕ
get_pair c index = get_or (get_or pairs_table c []) index 0

-- The codes of `"#0u3n5x71-ABCDE?"`.
unfoldable pub cond2char : List ℕ
cond2char = 35 ∷ 48 ∷ 117 ∷ 51 ∷ 110 ∷ 53 ∷ 120 ∷ 55 ∷ 49 ∷ 45 ∷ 65 ∷ 66 ∷ 67 ∷ 68 ∷ 69 ∷ 63 ∷ []

-- The loop of `Char2Cond()` over condition `i`, and the table that it leaves.
unfoldable pub char2cond_loop : List ℕ → ℕ → List ℕ → List ℕ
char2cond_loop [] i table = table
char2cond_loop (c ∷ rest) i table = char2cond_loop rest (i + 1) (set table c i)

unfoldable pub char2cond : List ℕ
char2cond = char2cond_loop cond2char 0 (replicate 256 255)

-- `GetChar()` and the constructor from a character.
unfoldable pub get_char : ℕ → ℕ
get_char c = get_or cond2char c 0

unfoldable pub from_char : ℕ → ℕ
from_char c = get_or char2cond c 255

-- `(!t) - 1` in the type of the word.
unfoldable pub all_or_none : Bool → ℕ
all_or_none t = sub64 (if t then 0 else 1) 1

-- The loop of `Filter0`, which repeats the condition in groups of four bits.
unfoldable pub repeat_loop : ℕ → ℕ → ℕ → ℕ → ℕ
repeat_loop zero i bc tmp = tmp
repeat_loop (suc left) i bc tmp = repeat_loop left (i + 1) bc (bit_or tmp (shl bc (i * 4)))

-- The loops of `Filter1` and `Filter2`: the group `lane << (i * step)` for each pair that is possible.
unfoldable pub spread_loop : ℕ → ℕ → ℕ → ℕ → ℕ → ℕ → ℕ
spread_loop zero i lane step bc tmp = tmp
spread_loop (suc left) i lane step bc tmp =
    spread_loop left (i + 1) lane step bc
      (bit_or tmp (bit_and (shl lane (i * step)) (all_or_none (bit bc i))))

-- The merge loops: `condition &= bitmask[i]` for each pair that is impossible.
unfoldable pub merge_loop : List ℕ → ℕ → ℕ → ℕ → ℕ
merge_loop [] i cond c = c
merge_loop (m ∷ rest) i cond c =
    merge_loop rest (i + 1) cond (if bit cond i then c else bit_and c m)
