-- ===== src/WordContainer/Ranges.antt =====
-- `Get` and `Set` of src/word_container.h, bit by bit.
use nldtool.Base.{
  ℕ, ◌+◌, ◌-◌, ◌/◌, ◌%◌, ◌≤◌, ◌<◌, ◌≡◌, refl, arith, Bool, true, false, List, ◌&&◌, leb, ◌==◌,
  if◌then◌else◌, bit_and, bit_or, set, length, length-set, get_or-set, get_or-set_ne,
}
use native.Mathlib.Decide.{ℕ_discrete}
use nldtool.Bits.{bit, shr, shl, bit-bit_and, bit-bit_or, bit-shr, bit-shl}
use nldtool.Utils.{mask, get_window_bits, set_window_bits}
use nldtool.Utils.Windows.{bit-mask, bit-get_window_bits, bit-set_window_bits}
use nldtool.WordContainer.{word_of, get, set_range}

-- Bit `p` of the container.
unfoldable pub bit_at : List ℕ → ℕ → Bool
bit_at words p = bit (word_of words (p / 64)) (p % 64)

module _ (words : List ℕ) (start end i : ℕ) (le : start ≤ end) (lt : end < start + 64) where
  here : ℕ
  here = word_of words (start / 64)

  there : ℕ
  there = word_of words (end / 64)

  at_start : (start + i) / 64 ≡ start / 64 → bit_at words (start + i) ≡ bit here (start % 64 + i)
  unfolding bit_at here
  at_start s =
      let place : (start + i) % 64 ≡ start % 64 + i = omega (arith, s) in rw (s, place) refl

  at_end :
      (start + i) / 64 ≡ end / 64
      → ¬ (start / 64 ≡ end / 64)
      → bit_at words (start + i) ≡ bit there (i - (63 - start % 64 + 1))
  unfolding bit_at there
  at_end s ne =
      let place : (start + i) % 64 ≡ i - (63 - start % 64 + 1) = omega (arith, s) in
      rw (s, place) refl

  one_word :
      start / 64 ≡ end / 64
      → bit (get_window_bits here (start % 64) (end % 64 - start % 64 + 1)) i
        ≡ (leb (start + i) end && bit_at words (start + i))
  one_word e = ground (
    arith,
    e,
    at_start,
    bit-get_window_bits here (start % 64) (end % 64 - start % 64 + 1) i (omega arith),
  )

  two_words :
      ¬ (start / 64 ≡ end / 64)
      → bit
          (bit_or
            (get_window_bits here (start % 64) (63 - start % 64 + 1))
            (shl (get_window_bits there 0 (end % 64 + 1)) (63 - start % 64 + 1)))
          i
        ≡ (leb (start + i) end && bit_at words (start + i))
  two_words ne =
      let len = 63 - start % 64 + 1 in
      ground (
        arith,
        at_start,
        λ (s : (start + i) / 64 ≡ end / 64). at_end s ne,
        bit-bit_or (get_window_bits here (start % 64) len)
            (shl (get_window_bits there 0 (end % 64 + 1)) len) i,
        bit-shl (get_window_bits there 0 (end % 64 + 1)) len i,
        bit-get_window_bits here (start % 64) len i (omega arith),
        bit-get_window_bits there 0 (end % 64 + 1) (i - len) (omega arith),
      )

  -- A range that does not end before it starts has the bits of its places, and no others.
  pub bit-get : bit (get words start end) i ≡ (leb (start + i) end && bit_at words (start + i))
  unfolding get here there
  bit-get = elim (ℕ_discrete (start / 64) (end / 64)) [
    | yes e ↦ let same : (start / 64 == end / 64) ≡ true = ground arith in rw same (one_word e)
    | no ne ↦
        let differ : (start / 64 == end / 64) ≡ false = ground arith in rw differ (two_words ne)
  ]

module _ (words : List ℕ) (start end cond p : ℕ) (le : start ≤ end) (lt : end < start + 64)
    (inside : end / 64 < length words) where
  bit_at-set :
      (ws : List ℕ) (k x : ℕ)
      → k < length ws
      → bit_at (set ws k x) p ≡ (if k == p / 64 then bit x (p % 64) else bit_at ws p)
  unfolding bit_at
  bit_at-set ws k x h = ground (arith, get_or-set ws k (p / 64) x 0 h)

  old_bit : (k : ℕ) → k ≡ p / 64 → bit (word_of words k) (p % 64) ≡ bit_at words p
  unfolding bit_at
  old_bit k e = rw e refl

  one_word_set :
      start / 64 ≡ end / 64
      → bit_at
          (set words (start / 64) (
            set_window_bits
              (word_of words (start / 64))
              (start % 64)
              (end % 64 - start % 64 + 1)
              cond))
          p
        ≡ (if leb start p && leb p end then bit cond (p - start) else bit_at words p)
  one_word_set e =
      let x =
        set_window_bits (word_of words (start / 64)) (start % 64) (end % 64 - start % 64 + 1)
          cond in
      let view =
        bit-set_window_bits (word_of words (start / 64)) (start % 64) (end % 64 - start % 64 + 1)
          cond (p % 64) (omega arith) (omega arith) in
      elim (ℕ_discrete (start / 64) (p / 64)) [
        | yes s ↦
            let from : p % 64 - start % 64 ≡ p - start = omega arith in
            ground (
              arith,
              bit_at-set words (start / 64) x (omega arith),
              view,
              old_bit (start / 64) s,
              from,
            )
        | no ns ↦ ground (arith, bit_at-set words (start / 64) x (omega arith))
      ]

  -- The first word of two.
  first_word : ℕ
  first_word =
      set_window_bits (word_of words (start / 64)) (start % 64) (63 - start % 64 + 1)
        (bit_and cond (mask (63 - start % 64 + 1)))

  bit-first_word :
      start / 64 ≡ p / 64
      → bit first_word (p % 64) ≡ (if leb start p then bit cond (p - start) else bit_at words p)
  unfolding first_word
  bit-first_word s =
      let len = 63 - start % 64 + 1 in
      let from : p % 64 - start % 64 ≡ p - start = omega arith in
      ground (
        arith,
        bit-set_window_bits (word_of words (start / 64)) (start % 64) len (bit_and cond (mask len))
            (p % 64) (omega arith) (omega arith),
        bit-bit_and cond (mask len) (p - start),
        bit-mask len (p - start) (omega arith),
        old_bit (start / 64) s,
        from,
      )

  two_words_set :
      ¬ (start / 64 ≡ end / 64)
      → bit_at
          (set (set words (start / 64) first_word) (end / 64) (
            set_window_bits
              (word_of (set words (start / 64) first_word) (end / 64))
              0
              (end % 64 + 1)
              (shr cond (63 - start % 64 + 1))))
          p
        ≡ (if leb start p && leb p end then bit cond (p - start) else bit_at words p)
  two_words_set ne =
      let ws = set words (start / 64) first_word in
      let len = 63 - start % 64 + 1 in
      let kept : word_of ws (end / 64) ≡ word_of words (end / 64) =
        get_or-set_ne words (start / 64) (end / 64) first_word 0 ne in
      let second = set_window_bits (word_of ws (end / 64)) 0 (end % 64 + 1) (shr cond len) in
      let view =
        bit-set_window_bits (word_of ws (end / 64)) 0 (end % 64 + 1) (shr cond len) (p % 64)
          (omega arith) (omega arith) in
      let outer =
        bit_at-set ws (end / 64) second (omega (arith, length-set words (start / 64) first_word)) in
      elim (ℕ_discrete (end / 64) (p / 64)) [
        | yes s ↦
            let from : len + p % 64 ≡ p - start = omega arith in
            ground (arith, outer, view, kept, bit-shr cond len (p % 64), old_bit (end / 64) s, from)
        | no ns ↦
            ground
              (arith, outer, bit_at-set words (start / 64) first_word (omega arith), bit-first_word)
      ]

  -- `Set` writes the range's places, and no others.
  pub bit_at-set_range :
      bit_at (set_range words start end cond) p
      ≡ (if leb start p && leb p end then bit cond (p - start) else bit_at words p)
  unfolding set_range first_word
  bit_at-set_range = elim (ℕ_discrete (start / 64) (end / 64)) [
    | yes e ↦ let same : (start / 64 == end / 64) ≡ true = ground arith in rw same (one_word_set e)
    | no ne ↦
        let differ : (start / 64 == end / 64) ≡ false = ground arith in rw differ (two_words_set ne)
  ]
