-- ===== src/Bitmask/Positions.antt =====
-- `GetBitposList` and `First` of src/bitmask.cpp against `GetBit`.
use nldtool.Base.{
  tri, ℕ, zero, suc, ◌+◌, ◌≤◌, ◌<◌, ◌≡◌, ◌⊎◌, refl, arith, ap, sym, ◌∙◌, Bool, false, List, [], ◌∷◌,
  ◌++◌, Option, none, some, ltb, leb, ◌==◌, ◌&&◌, ◌||◌, Bool-cases, inl, inr,
}
use native.Mathlib.Decide.{ℕ_discrete}
use nldtool.Bits.{bit, bit-zero, word_ext}
use nldtool.Bitmask.{
  Bitmask, Bitpos, WordMask, find_mask, get_word_mask, get_bit, bits_from, bitpos_list,
  get_bitpos_list, first_bit, first,
}
use nldtool.Bitmask.View.{Ascending, find_mask-step, find_mask-below, find_mask-nil}

-- The position is in the list.
abbrev pub listed_pos : Bitpos → List Bitpos → Bool
listed_pos pos [] = false
listed_pos pos (x ∷ xs) = (x.word == pos.word && x.bit_index == pos.bit_index) || listed_pos pos xs

-- The front of a list.
abbrev pub front : List Bitpos → Option Bitpos
front [] = none
front (x ∷ xs) = some x

listed-bits_from :
    (pos : Bitpos) (it : WordMask) (left j : ℕ) (rest : List Bitpos)
    → listed_pos pos (bits_from it left j ++ rest) ≡ (
        (it.word == pos.word
          && (leb j pos.bit_index && (ltb pos.bit_index (j + left) && bit it.bits pos.bit_index)))
        || listed_pos pos rest)
unfolding bits_from
listed-bits_from pos it zero j rest = ground arith
listed-bits_from pos it (suc left) j rest =
    let later = listed-bits_from pos it left (j + 1) rest in
    elim (Bool-cases (bit it.bits j)) [
      | inl t ↦ rw t (ground (arith, later, t, ap (bit it.bits) {x = j} {y = pos.bit_index}))
      | inr f ↦ rw f (ground (arith, later, f, ap (bit it.bits) {x = j} {y = pos.bit_index}))
    ]

listed-bitpos_list :
    (pos : Bitpos) (lo : ℕ) (masks : List WordMask)
    → pos.bit_index < 64
    → Ascending lo masks
    → listed_pos pos (bitpos_list masks) ≡ bit (find_mask pos.word masks) pos.bit_index
unfolding bitpos_list
listed-bitpos_list pos lo [] lt a =
    sym (ap (λ x. bit x pos.bit_index) (find_mask-nil pos.word) ∙ bit-zero pos.bit_index)
listed-bitpos_list pos lo (it ∷ rest) lt a =
    let here = listed-bits_from pos it 64 0 (bitpos_list rest) in
    let later = listed-bitpos_list pos (suc it.word) rest lt a.3 in
    let below = find_mask-below pos.word (suc it.word) rest a.3 in
    rw (find_mask-step pos.word it rest) (elim (tri it.word pos.word) [
      | inl less ↦ ground (arith, less, here, later)
      | inr (inl same) ↦
          let gone : bit (find_mask pos.word rest) pos.bit_index ≡ false =
            ap (λ x. bit x pos.bit_index) (below (omega arith)) ∙ bit-zero pos.bit_index in
          ground (arith, same, here, later, gone, lt)
      | inr (inr more) ↦
          let gone : bit (find_mask pos.word rest) pos.bit_index ≡ false =
            ap (λ x. bit x pos.bit_index) (below (omega arith)) ∙ bit-zero pos.bit_index in
          ground (arith, more, here, later, gone, bit-zero pos.bit_index)
    ])

-- Without a bit the search fails on all bits, else it is the front of what the loop lists.
first_bit-cases :
    (it : WordMask) (left j : ℕ) (rest : List Bitpos)
    → (first_bit it left j ≡ front (bits_from it left j ++ rest))
      ⊎ ((i : ℕ) → j ≤ i → i < j + left → bit it.bits i ≡ false)
unfolding first_bit bits_from
first_bit-cases it zero j rest = inr (λ i le lt. absurd (omega arith))
first_bit-cases it (suc left) j rest = elim (Bool-cases (bit it.bits j)) [
  | inl t ↦ inl (rw t refl)
  | inr f ↦ elim (first_bit-cases it left (j + 1) rest) [
    | inl e ↦ inl (rw f e)
    | inr none_set ↦ inr (λ i le lt. elim (ℕ_discrete i j) [
      | yes e ↦ rw e f
      | no ne ↦ none_set i (omega arith) (omega arith)
    ])
  ]
]

first-front :
    (lo : ℕ) (masks : List WordMask) → Ascending lo masks → first masks ≡ front (bitpos_list masks)
unfolding first bitpos_list
first-front lo [] a = refl
first-front lo (it ∷ rest) a = elim (first_bit-cases it 64 0 (bitpos_list rest)) [
  | inl e ↦ e
  | inr none_set ↦ absurd (
      a.1 (
        word_ext it.bits 0 a.2 (omega arith)
          (λ i lt. none_set i (omega arith) (omega arith) ∙ sym (bit-zero i))))
]

-- For masks in order, `GetBitposList` lists just the positions that `GetBit` reads as set, and `First` is the front
-- of that list.
pub listed-get_bitpos_list :
    (m : Bitmask) (pos : Bitpos)
    → pos.bit_index < 64
    → Ascending 0 m.masks
    → (listed_pos pos (get_bitpos_list m) ≡ get_bit m pos)
      × (first m.masks ≡ front (get_bitpos_list m))
unfolding get_bitpos_list get_bit get_word_mask
listed-get_bitpos_list m pos lt a = (listed-bitpos_list pos 0 m.masks lt a, first-front 0 m.masks a)
