-- ===== src/TwobitContainer/Threshold.antt =====
-- `GetTwobitDegreeMask` of src/twobit_container.cpp: which bits of the mask are set.
use nldtool.Base.{
  ℕ, zero, suc, ◌+◌, ◌-◌, ◌*◌, ◌/◌, ◌%◌, ◌≤◌, ◌<◌, ◌≡◌, refl, arith, ap, sym, ◌∙◌, subst, true,
  false, List, bit_and, leb, ltb, ◌==◌, ◌||◌, ◌&&◌, Bool-cases, get_or, tri, inl, inr,
}
use native.Mathlib.Decide.{ℕ_discrete}
use native.Mathlib.Nat.{mod-lt, div-add-mod'}
use nldtool.Bits.{
  bit, IsWord, shl, bit-bit_or, bit-bit_and, bit-shl, bit-two_pow, bit-zero, not64, shr-le,
}
use nldtool.Utils.{mask}
use nldtool.Utils.Windows.{bit-mask}
use nldtool.Bitmask.{
  Bitmask, Bitpos, bitmask, set_bit, set_bit_at, get_bit, get_word_mask, find_mask,
}
use nldtool.Bitmask.Combine.{
  IsBitmask, SameShape, SameShape-IsBitmask, set_bits-view, set_bits-SameShape,
}
use nldtool.TwobitContainer.{
  TwobitContainer, degree_mask_from, get_twobit_degree_mask, get_twobit_degree, index_from_bitpos,
}

-- A quotient and a remainder belong to one number only.
same_place : (s q r k m : ℕ) → r < s → m < s → q * s + r ≡ k * s + m → (q ≡ k) × (r ≡ m)
same_place s q r k m hr hm e = elim (tri q k) [
  | inl lt ↦
      let gap : k * s ≡ q * s + s + (k - (q + 1)) * s =
        ap (λ x. x * s) (let split : k ≡ q + 1 + (k - (q + 1)) = omega arith in split)
        ∙ omega arith in
      absurd (omega (arith, gap, e, hr))
  | inr (inl same) ↦ (same, omega (arith, e, ap (λ x. x * s) same))
  | inr (inr gt) ↦
      let gap : q * s ≡ k * s + s + (q - (k + 1)) * s =
        ap (λ x. x * s) (let split : q ≡ k + 1 + (q - (k + 1)) = omega arith in split)
        ∙ omega arith in
      absurd (omega (arith, gap, e, hm))
]

bit-one : (low b : ℕ) → low < 64 → bit (shl 1 low) b ≡ (low == b)
bit-one low b h = ground (arith, bit-shl 1 low b, bit-two_pow 0 (b - low), h)

-- `SetBit(i)` sets the bit at the position of the index, and leaves the others.
get_bit-set_bit :
    (m : Bitmask) (i : ℕ) (pos : Bitpos)
    → IsBitmask m
    → pos.bit_index < m.word_size
    → get_bit (set_bit m i) pos ≡ (get_bit m pos || index_from_bitpos m.word_size pos == i)
unfolding get_bit set_bit set_bit_at
get_bit-set_bit m i pos w lt =
    let size = m.word_size in
    let word = i / size in
    let low = i % size in
    let low_lt : low < size = mod-lt i (omega arith) in
    let whole : word * size + low ≡ i = div-add-mod' i size in
    let view = set_bits-view m word (shl 1 low) pos.word w.3 in
    let b = pos.bit_index in
    let old = get_word_mask m pos.word in
    let inside : bit m.word_mask b ≡ true =
      ap (λ x. bit x b) w.1 ∙ bit-mask size b w.0 ∙ ground (arith, lt) in
    let added =
      bit-bit_or old (bit_and (shl 1 low) m.word_mask) b
      ∙ ap (λ q. bit old b || q) (bit-bit_and (shl 1 low) m.word_mask b) in
    let one = bit-one low b (omega (arith, low_lt, w.0)) in
    elim (ℕ_discrete (index_from_bitpos size pos) i) [
      | yes e ↦
          let (words, bits) =
            same_place size pos.word pos.bit_index word low lt low_lt (e ∙ sym whole) in
          let t : (word == pos.word) ≡ true = ground (arith, words) in
          let view' = rw t at view in
          ap (λ x. bit x b) view' ∙ ground (arith, added, one, inside, bits, e)
      | no ne ↦ elim (Bool-cases (word == pos.word)) [
        | inl t ↦
            let same_word : word ≡ pos.word = ground (arith, t) in
            let view' = rw t at view in
            let differ : (low == b) ≡ false =
              let apart : ¬ (low ≡ b) =
                λ h. ne (omega (arith, ap (λ x. x * size) same_word, h, whole)) in
              ground (arith, apart) in
            ap (λ x. bit x b) view' ∙ ground (arith, added, one, differ, ne)
        | inr t ↦ let view' = rw t at view in ap (λ x. bit x b) view' ∙ ground (arith, ne)
      ]
    ]

-- `SetBit(i)` keeps the size and the order.
set_bit-SameShape : (m : Bitmask) (i : ℕ) → IsBitmask m → SameShape m (set_bit m i)
unfolding set_bit set_bit_at
set_bit-SameShape m i w = set_bits-SameShape m (i / m.word_size) (shl 1 (i % m.word_size)) w.3 w.2

degree_mask_from-bit :
    (th : ℕ) (degrees : List ℕ) (left i : ℕ) (m : Bitmask) (pos : Bitpos)
    → IsBitmask m
    → pos.bit_index < m.word_size
    → let n = index_from_bitpos m.word_size pos in
      get_bit (degree_mask_from th degrees left i m) pos
      ≡ (get_bit m pos || leb i n && ltb n (i + left) && leb th (get_or degrees n 0))
unfolding degree_mask_from
degree_mask_from-bit th degrees zero i m pos w lt = ground arith
degree_mask_from-bit th degrees (suc left) i m pos w lt =
    let n = index_from_bitpos m.word_size pos in
    elim (Bool-cases (leb th (get_or degrees i 0))) [
      | inl t ↦
          let next = set_bit m i in
          let shape = set_bit-SameShape m i w in
          let w' = SameShape-IsBitmask m next w shape in
          let rest =
            degree_mask_from-bit th degrees left (i + 1) next pos w' (omega (arith, shape.0, lt)) in
          let rest' =
            subst
              (λ z.
                let k = index_from_bitpos z pos in
                get_bit (degree_mask_from th degrees left (i + 1) next) pos ≡ (
                  get_bit next pos
                  || leb (i + 1) k && ltb k (i + 1 + left) && leb th (get_or degrees k 0)))
              shape.0 rest in
          let now = get_bit-set_bit m i pos w lt in
          rw t (
            rest' ∙ elim (ℕ_discrete n i) [
              | yes e ↦
                  let here : leb th (get_or degrees n 0) ≡ true = rw e t in
                  ground (arith, now, e, here)
              | no ne ↦ ground (arith, now, ne)
            ])
      | inr t ↦
          let rest = degree_mask_from-bit th degrees left (i + 1) m pos w lt in
          rw t (
            rest ∙ elim (ℕ_discrete n i) [
              | yes e ↦
                  let here : leb th (get_or degrees n 0) ≡ false = rw e t in ground (arith, e, here)
              | no ne ↦ ground (arith, ne)
            ])
    ]

empty-bit : (word_size : ℕ) (pos : Bitpos) → get_bit (bitmask word_size) pos ≡ false
unfolding get_bit bitmask get_word_mask find_mask
empty-bit word_size pos = bit-zero pos.bit_index

empty-IsBitmask : (word_size : ℕ) → word_size ≤ 64 → IsBitmask (bitmask word_size)
unfolding bitmask mask nldtool.Bits.shr not64
empty-IsBitmask word_size h = (h, refl, omega (arith, shr-le (not64 0) (64 - word_size)), tt)

-- For words of at most 64 bits, the mask of `GetTwobitDegreeMask(th)` has a bit of a word exactly if its degree is at
-- least `th`.
pub degree_mask-leb :
    (num_words word_size : ℕ) (c : TwobitContainer) (th : ℕ) (pos : Bitpos)
    → word_size ≤ 64
    → pos.word < num_words
    → pos.bit_index < word_size
    → get_bit (get_twobit_degree_mask num_words word_size c th) pos
      ≡ leb th (get_twobit_degree word_size (c.twobit_degree) pos)
unfolding get_twobit_degree_mask get_twobit_degree bitmask
degree_mask-leb num_words word_size c th pos few hw hb =
    let n = index_from_bitpos word_size pos in
    let below : n < num_words * word_size =
      let split : num_words ≡ pos.word + 1 + (num_words - (pos.word + 1)) = omega arith in
      let whole : num_words * word_size
          ≡ pos.word * word_size + word_size + (num_words - (pos.word + 1)) * word_size =
        ap (λ x. x * word_size) split ∙ omega arith in
      omega (arith, whole) in
    let all =
      degree_mask_from-bit th (c.twobit_degree) (num_words * word_size) 0 (bitmask word_size) pos
        (empty-IsBitmask word_size few) hb in
    all ∙ ground (arith, below, empty-bit word_size pos)
