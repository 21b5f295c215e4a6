-- ===== src/WordContainer/Fields.antt =====
-- Ranges of src/word_container.h as fields: what is written is read back, and other ranges keep their bits.
use nldtool.Base.{
  ℕ, ◌+◌, ◌-◌, ◌/◌, ◌%◌, ◌≤◌, ◌<◌, ◌≡◌, ◌⊎◌, refl, arith, ap₂, [], ◌∷◌, true, List, length, bit_and,
}
use nldtool.Bits.{
  IsWord, not64, shr, shl, shr-le, not64-IsWord, shl-IsWord, bit_and-lt, bit_or-lt, word_ext,
  bit-bit_and,
}
use nldtool.Utils.{mask, get_window_bits}
use nldtool.Utils.Windows.{bit-mask}
use nldtool.WordContainer.{word_of, get, set_range, equals}
use nldtool.WordContainer.Ranges.{bit-get, bit_at-set_range}

pub mask-IsWord : (n : ℕ) → IsWord (mask n)
unfolding mask
mask-IsWord n = omega (arith, shr-le (not64 0) (64 - n), not64-IsWord 0)

get_window_bits-IsWord : (word n w : ℕ) → IsWord (get_window_bits word n w)
unfolding get_window_bits
get_window_bits-IsWord word n w = bit_and-lt 64 (shr word n) (mask w) (mask-IsWord w)

pub get-IsWord : (words : List ℕ) (start end : ℕ) → IsWord (get words start end)
unfolding get
get-IsWord words start end =
    let one = get_window_bits-IsWord (word_of words (start / 64)) (start % 64) in
    let two =
      bit_or-lt 64 (get_window_bits (word_of words (start / 64)) (start % 64) (63 - start % 64 + 1))
        (shl (get_window_bits (word_of words (end / 64)) 0 (end % 64 + 1)) (63 - start % 64 + 1))
        (one (63 - start % 64 + 1)) (shl-IsWord _ _) in
    ground (arith, one (end % 64 - start % 64 + 1), two)

module _ (words : List ℕ) (start end cond : ℕ) (le : start ≤ end) (lt : end < start + 64)
    (inside : end / 64 < length words) where
  -- In a container that reaches as far as the range, `Get` after `Set` of a range is what was written, cut to the
  -- range's width.
  pub get-set_range :
      get (set_range words start end cond) start end ≡ bit_and cond (mask (end - start + 1))
  get-set_range =
      word_ext (get (set_range words start end cond) start end)
        (bit_and cond (mask (end - start + 1)))
        (get-IsWord (set_range words start end cond) start end)
        (bit_and-lt 64 cond (mask (end - start + 1)) (mask-IsWord (end - start + 1)))
        (λ i below.
          let from : start + i - start ≡ i = omega arith in
          ground (
            arith,
            from,
            bit-get (set_range words start end cond) start end i le lt,
            bit_at-set_range words start end cond (start + i) le lt inside,
            bit-bit_and cond (mask (end - start + 1)) i,
            bit-mask (end - start + 1) i (omega arith),
          ))

  -- `Get` of a range that lies apart is the same before and after `Set`.
  pub get-set_range_apart :
      (first last : ℕ)
      → first ≤ last
      → last < first + 64
      → (last < start) ⊎ (end < first)
      → get (set_range words start end cond) first last ≡ get words first last
  get-set_range_apart first last le' lt' apart =
      word_ext (get (set_range words start end cond) first last) (get words first last)
        (get-IsWord (set_range words start end cond) first last) (get-IsWord words first last)
        (λ i below. ground (
          arith,
          apart,
          bit-get (set_range words start end cond) first last i le' lt',
          bit-get words first last i le' lt',
          bit_at-set_range words start end cond (first + i) le lt inside,
        ))

-- `Equals` holds of equal containers only.
pub equals-exact : (vs ws : List ℕ) → equals vs ws ≡ true → vs ≡ ws
unfolding equals
equals-exact [] [] h = refl
equals-exact [] (w ∷ ws) h = absurd (ground (arith, h))
equals-exact (v ∷ vs) [] h = absurd (ground (arith, h))
equals-exact (v ∷ vs) (w ∷ ws) h =
    let head : v ≡ w = ground (arith, h) in
    ap₂ (λ x xs. x ∷ xs) head (equals-exact vs ws (ground (arith, h)))
