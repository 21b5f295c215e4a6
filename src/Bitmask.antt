-- ===== src/Bitmask.antt =====
-- src/bitmask.h and src/bitmask.cpp: a set of bits, kept as the masks of the words that have one, in
-- increasing order of the words. Iterators are replaced by recursion on the list: `std::lower_bound`
-- goes past the entries that are less than `{word, 0}`.
pub mod View
pub mod Positions
pub mod Combine
pub mod Assign
use nldtool.Base.{
  Option, none, some, ℕ, zero, suc, ◌+◌, ◌-◌, ◌/◌, ◌%◌, Bool, true, false, List, [], ◌∷◌, ◌++◌,
  bit_and, bit_or, ltb, ◌==◌, ◌&&◌, ◌||◌, if◌then◌else◌, length, max,
}
use nldtool.Bits.{bit, not64, shl}
use nldtool.Utils.{mask, hamming_weight}

pub record WordMask : Type 0 where
  pub word : ℕ
  pub bits : ℕ

pub record Bitmask : Type 0 where
  pub word_size : ℕ
  pub word_mask : ℕ
  pub masks : List WordMask

-- `Bitpos` of src/bitpos.h.
pub record Bitpos : Type 0 where
  pub word : ℕ
  pub bit_index : ℕ

-- `WordMask::operator<`.
abbrev pub less : WordMask → WordMask → Bool
less a b = ltb a.word b.word || a.word == b.word && ltb a.bits b.bits

-- `{word, 0}`, with which the searches begin.
abbrev pub probe : ℕ → WordMask
probe word = record { word = word; bits = 0 }

-- `Bitmask(word_size)`.
unfoldable pub bitmask : ℕ → Bitmask
bitmask word_size = record { word_size = word_size; word_mask = mask word_size; masks = [] }

unfoldable pub empty : Bitmask → Bool
empty m = length m.masks == 0

unfoldable pub get_num_words_set : Bitmask → ℕ
get_num_words_set m = length m.masks

-- `GetWordMask(word)`, on the list of masks and on the object.
unfoldable pub find_mask : ℕ → List WordMask → ℕ
find_mask word [] = 0
find_mask word (it ∷ rest) =
    if less it (probe word) then find_mask word rest else if it.word == word then it.bits else 0

unfoldable pub get_word_mask : Bitmask → ℕ → ℕ
get_word_mask m word = find_mask word m.masks

-- `ClearBits(it, mask)`: the entry at `it` goes where no bit is left. `bits` has been masked.
unfoldable pub clear_entry : WordMask → ℕ → List WordMask → List WordMask
clear_entry it bits rest =
    let left = bit_and it.bits (not64 bits) in
    if left == 0 then rest else record it { bits = left } ∷ rest

-- `ClearBits(word, mask)`, where `bits` is `mask & word_mask_`.
unfoldable pub clear_masks : ℕ → ℕ → List WordMask → List WordMask
clear_masks word bits [] = []
clear_masks word bits (it ∷ rest) =
    if less it (probe word)
    then it ∷ clear_masks word bits rest
    else if it.word == word
    then clear_entry it bits rest
    else it ∷ rest

unfoldable pub clear_bits : Bitmask → ℕ → ℕ → Bitmask
clear_bits m word bits = record m { masks = clear_masks word (bit_and bits m.word_mask) m.masks }

-- `SetBits(word, mask)`, where `bits` is `mask & word_mask_` and not zero.
unfoldable pub set_masks : ℕ → ℕ → List WordMask → List WordMask
set_masks word bits [] = record { word = word; bits = bits } ∷ []
set_masks word bits (it ∷ rest) =
    if less it (probe word)
    then it ∷ set_masks word bits rest
    else if it.word == word
    then record it { bits = bit_or it.bits bits } ∷ rest
    else record { word = word; bits = bits } ∷ it ∷ rest

unfoldable pub set_bits : Bitmask → ℕ → ℕ → Bitmask
set_bits m word bits =
    let kept = bit_and bits m.word_mask in
    if kept == 0 then m else record m { masks = set_masks word kept m.masks }

-- The other forms of `ClearBit`, `SetBit`, `ClearWord` and `SetWord`.
unfoldable pub clear_bit_at : Bitmask → ℕ → ℕ → Bitmask
clear_bit_at m word b = clear_bits m word (shl 1 b)

unfoldable pub set_bit_at : Bitmask → ℕ → ℕ → Bitmask
set_bit_at m word b = set_bits m word (shl 1 b)

unfoldable pub clear_bit : Bitmask → ℕ → Bitmask
clear_bit m b = clear_bit_at m (b / m.word_size) (b % m.word_size)

unfoldable pub set_bit : Bitmask → ℕ → Bitmask
set_bit m b = set_bit_at m (b / m.word_size) (b % m.word_size)

unfoldable pub clear_pos : Bitmask → Bitpos → Bitmask
clear_pos m pos = clear_bit_at m pos.word pos.bit_index

unfoldable pub set_pos : Bitmask → Bitpos → Bitmask
set_pos m pos = set_bit_at m pos.word pos.bit_index

unfoldable pub clear_word : Bitmask → ℕ → Bitmask
clear_word m word = clear_bits m word m.word_mask

unfoldable pub set_word : Bitmask → ℕ → Bitmask
set_word m word = set_bits m word m.word_mask

-- `SetAll(num_words)` appends to what is there.
unfoldable pub full_masks : ℕ → ℕ → ℕ → List WordMask
full_masks bits zero i = []
full_masks bits (suc left) i = record { word = i; bits = bits } ∷ full_masks bits left (i + 1)

unfoldable pub set_all : Bitmask → ℕ → Bitmask
set_all m num_words = record m { masks = m.masks ++ full_masks m.word_mask num_words 0 }

unfoldable pub clear_all : Bitmask → Bitmask
clear_all m = record m { masks = [] }

-- `GetBit(pos)`.
unfoldable pub get_bit : Bitmask → Bitpos → Bool
get_bit m pos = bit (get_word_mask m pos.word) pos.bit_index

-- `masks_.back().word`, or 0.
unfoldable pub last_word : List WordMask → ℕ
last_word [] = 0
last_word (it ∷ []) = it.word
last_word (it ∷ next ∷ rest) = last_word (next ∷ rest)

-- The loop of `operator&=` from word `i` on.
unfoldable pub and_loop : ℕ → ℕ → Bitmask → Bitmask → Bitmask
and_loop zero i m rhs = m
and_loop (suc left) i m rhs =
    and_loop left (i + 1) (clear_bits m i (not64 (get_word_mask rhs i))) rhs

unfoldable pub and_assign : Bitmask → Bitmask → Bitmask
and_assign m rhs = and_loop (max (last_word m.masks) (last_word rhs.masks) + 1) 0 m rhs

-- The loop of `operator|=`.
unfoldable pub or_loop : List WordMask → Bitmask → Bitmask
or_loop [] m = m
or_loop (it ∷ rest) m = or_loop rest (set_bits m it.word it.bits)

unfoldable pub or_assign : Bitmask → Bitmask → Bitmask
or_assign m rhs = or_loop rhs.masks m

-- `GetNumBitsSet()`.
unfoldable pub num_bits : List WordMask → ℕ
num_bits [] = 0
num_bits (it ∷ rest) = hamming_weight it.bits + num_bits rest

unfoldable pub get_num_bits_set : Bitmask → ℕ
get_num_bits_set m = num_bits m.masks

-- `GetBitposList()`: the loop over bit `j`, with `left` bits to go, and the loop over the words.
unfoldable pub bits_from : WordMask → ℕ → ℕ → List Bitpos
bits_from it zero j = []
bits_from it (suc left) j =
    let later = bits_from it left (j + 1) in
    if bit it.bits j then record { word = it.word; bit_index = j } ∷ later else later

unfoldable pub bitpos_list : List WordMask → List Bitpos
bitpos_list [] = []
bitpos_list (it ∷ rest) = bits_from it 64 0 ++ bitpos_list rest

unfoldable pub get_bitpos_list : Bitmask → List Bitpos
get_bitpos_list m = bitpos_list m.masks

-- The lowest bit of the entry at the front: `First()`. The source asserts that there is one.
unfoldable pub first_bit : WordMask → ℕ → ℕ → Option Bitpos
first_bit it zero j = none
first_bit it (suc left) j =
    let later = first_bit it left (j + 1) in
    if bit it.bits j then some (record { word = it.word; bit_index = j }) else later

unfoldable pub first : List WordMask → Option Bitpos
first [] = none
first (it ∷ rest) = first_bit it 64 0

-- `GetRandomBitpos(rng)` for the number `index` that is drawn: the loop over the bits of an entry, with `tmp` ones
-- passed, and the loop over the entries.
unfoldable pub random_bit : WordMask → ℕ → ℕ → ℕ → ℕ → Option Bitpos
random_bit it zero j tmp index = none
random_bit it (suc left) j tmp index =
    let hit = bit it.bits j in
    let later = random_bit it left (j + 1) (if hit then tmp + 1 else tmp) index in
    if hit && tmp == index then some (record { word = it.word; bit_index = j }) else later

unfoldable pub random_from : List WordMask → ℕ → ℕ → Option Bitpos
random_from [] tmp index = none
random_from (it ∷ rest) tmp index =
    let next = tmp + hamming_weight it.bits in
    let later = random_from rest next index in
    let here = random_bit it 64 0 tmp index in
    if ltb index next then elim here [ none ↦ later | some pos ↦ some pos ] else later

unfoldable pub get_random_bitpos : Bitmask → ℕ → Option Bitpos
get_random_bitpos m index = random_from m.masks 0 index
