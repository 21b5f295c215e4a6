-- ===== src/WordContainer.antt =====
-- src/word_container.h: an array of words, and a range of bits in one or two of them. Of `Hash` the
-- variant of `USE_STD_HASH_CHAIN` is modelled, which the file sets.
pub mod Ranges
pub mod Fields
use nldtool.Base.{
  ℕ, suc, ◌+◌, ◌-◌, ◌/◌, ◌%◌, Bool, true, false, List, [], ◌∷◌, bit_and, bit_or, bit_xor, ◌==◌,
  ◌&&◌, if◌then◌else◌, get_or, set,
}
use nldtool.Bits.{shr, shl, add64}
use nldtool.Utils.{mask, get_window_bits, set_window_bits}

-- `words_[i]`.
abbrev pub word_of : List ℕ → ℕ → ℕ
word_of words i = get_or words i 0

-- `Hash()`: the words' hashes by `std::hash<uint64_t>`, which is the parameter `hasher`, chained; `CHAIN_VALUE` is the
-- one of `USE_STD_HASH_CHAIN` 64.
module _ (hasher : ℕ → ℕ) where
  unfoldable pub hash_chain : List ℕ → ℕ → ℕ
  hash_chain [] result = result
  hash_chain (w ∷ ws) result =
      let chained =
        add64 (add64 (add64 (hasher w) 0x9b9773e99e3779b9) (shl result 6)) (shr result 2) in
      hash_chain ws (bit_xor result chained)

  unfoldable pub hash : List ℕ → ℕ
  hash words = hash_chain words 0

-- `Equals(w)`. In the source both containers have one length.
unfoldable pub equals : List ℕ → List ℕ → Bool
equals [] [] = true
equals [] (w ∷ ws) = false
equals (v ∷ vs) [] = false
equals (v ∷ vs) (w ∷ ws) = v == w && equals vs ws

-- `Get(start, end)`.
unfoldable pub get : List ℕ → ℕ → ℕ → ℕ
get words start end =
    let word0 = start / 64 in
    let word1 = end / 64 in
    let start_bit = start % 64 in
    let end_bit = end % 64 in
    let len = 63 - start_bit + 1 in
    if word0 == word1
    then get_window_bits (word_of words word0) start_bit (end_bit - start_bit + 1)
    else bit_or (get_window_bits (word_of words word0) start_bit len)
        (shl (get_window_bits (word_of words word1) 0 (end_bit + 1)) len)

-- `Set(start, end, cond)`.
unfoldable pub set_range : List ℕ → ℕ → ℕ → ℕ → List ℕ
set_range words start end cond =
    let word0 = start / 64 in
    let word1 = end / 64 in
    let start_bit = start % 64 in
    let end_bit = end % 64 in
    let len = 63 - start_bit + 1 in
    if word0 == word1
    then set words word0
        (set_window_bits (word_of words word0) start_bit (end_bit - start_bit + 1) cond)
    else (let words1 = set words word0 (
          set_window_bits (word_of words word0) start_bit len
            (bit_and cond (mask (63 - start_bit + 1)))) in
        set words1 word1 (set_window_bits (word_of words1 word1) 0 (end_bit + 1) (shr cond len)))
