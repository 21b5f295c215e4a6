-- ===== src/Bitslice/Collect.antt =====
-- `IsPair` of src/bitslice_data.h and `Collect` of src/propagate.h: a choice that fits the outputs adds its pairs.
use nldtool.Base.{
  ℕ, suc, ◌+◌, ◌-◌, ◌/◌, ◌≤◌, ◌<◌, ◌≡◌, refl, arith, ap, sym, ◌∙◌, Bool, true, false, List, [], ◌∷◌,
  ◌&&◌, ◌||◌, ◌==◌, leb, ltb, not, Bool-cases, tri, length, length-set, set, get_or, inl, inr,
  bit_or, bit_and,
}
use native.Mathlib.Decide.{ℕ_discrete}
use nldtool.Bits.{
  bit, bit-bit_or, bit-bit_and, bit-shl, bit-zero, bit-two_pow, word_ext, bit_and-lt, shl-IsWord,
}
use nldtool.Pair.{Pair}
use nldtool.WordContainer.{set_range}
use nldtool.Bitslice.{
  BitFunction, params, num_words, get_condition, set_condition, pair_code, pair_mask, is_pair,
  collect, no_pair,
}
use nldtool.Bitslice.Conditions.{
  IsBitFunction, fits_bits, fits, pair_place, bit-get_set, bit-get_condition_ge, width, width-le,
}
use nldtool.Bitslice.Choices.{admits}

pub length-set_range :
    (words : List ℕ) (start end c : ℕ) → length (set_range words start end c) ≡ length words
unfolding set_range
length-set_range words start end c = elim (Bool-cases (start / 64 == end / 64)) [
  | inl t ↦ rw t (length-set words _ _)
  | inr e ↦ rw e (length-set (set words (start / 64) _) _ _ ∙ length-set words _ _)
]

module _ (f : BitFunction) (ok : IsBitFunction f) where
  pub length-set_condition :
      (conditions : List ℕ) (i c : ℕ) → length (set_condition f conditions i c) ≡ length conditions
  unfolding set_condition
  length-set_condition conditions i c = length-set_range conditions _ _ c

  -- The place of a pair that fits is inside its condition, and its mask has that bit alone.
  code-lt :
      (i : ℕ) (p : Pair) → fits_bits (f.bitsize i) p ≡ true → pair_code f i p < width (f.bitsize i)
  code-lt i p h =
      let place =
        pair_place (f.bitsize i) p.first p.second (ok.bits_to i) (ground (arith, h))
          (ground (arith, h)) in
      omega (arith, place.0, place.1)

  bit-pair_mask :
      (i : ℕ) (p : Pair) (b : ℕ)
      → fits_bits (f.bitsize i) p ≡ true
      → bit (pair_mask f i p) b ≡ (pair_code f i p == b)
  bit-pair_mask i p b h =
      let lt = code-lt i p h in
      let most = width-le (f.bitsize i) (ok.bits_to i) in
      ground (arith, bit-shl 1 (pair_code f i p) b, bit-two_pow 0 (b - pair_code f i p), lt, most)

  zero_unless :
      (cond code k : ℕ) (x : Bool)
      → bit cond code ≡ false
      → x ≡ (code == k)
      → (bit cond k && x) ≡ false
  zero_unless cond code k x e h = elim (ℕ_discrete code k) [
    | yes same ↦ let off : bit cond k ≡ false = rw (sym same) e in rw off refl
    | no ne ↦ let off : x ≡ false = ground (arith, h, ne) in ground (arith, off)
  ]

  -- `(condition & pair) != 0` is a test of one bit.
  mask-bit :
      (cond i : ℕ) (p : Pair)
      → fits_bits (f.bitsize i) p ≡ true
      → not (bit_and cond (pair_mask f i p) == 0) ≡ bit cond (pair_code f i p)
  mask-bit cond i p h =
      let m = pair_mask f i p in
      let code = pair_code f i p in
      let both = bit_and cond m in
      elim (Bool-cases (bit cond code)) [
        | inl t ↦
            let set_bit : bit both code ≡ true =
              bit-bit_and cond m code ∙ ground (arith, t, bit-pair_mask i p code h) in
            let nonzero : ¬ (both ≡ 0) =
              λ e. absurd (ground (arith, sym set_bit ∙ ap (λ x. bit x code) e ∙ bit-zero code)) in
            ground (arith, nonzero, t)
        | inr e ↦
            let none : both ≡ 0 =
              word_ext both 0 (bit_and-lt 64 cond m (shl-IsWord 1 code)) (omega arith) (λ k below.
                bit-bit_and cond m k
                ∙ zero_unless cond code k (bit m k) e (bit-pair_mask i p k h)
                ∙ sym (bit-zero k)) in
            ground (arith, none, e)
      ]

  -- Of outputs that fit, `IsPair` says whether the conditions admit them.
  pub is_pair-admits :
      (d : List ℕ) (ps : List Pair) (i : ℕ)
      → fits f ps i ≡ true
      → is_pair f d ps i ≡ admits f d ps i
  unfolding is_pair admits fits
  is_pair-admits d [] i h = refl
  is_pair-admits d (p ∷ ps) i h =
      rw (mask-bit (get_condition f d i) i p (ground (arith, h)))
        (ground (arith, h, is_pair-admits d ps (i + 1) (ground (arith, h))))

  pub length-collect :
      (output : List ℕ) (ps : List Pair) (i : ℕ) → length (collect f output ps i) ≡ length output
  unfolding collect
  length-collect output [] i = refl
  length-collect output (p ∷ ps) i =
      let c = bit_or (get_condition f output i) (pair_mask f i p) in
      length-collect (set_condition f output i c) ps (i + 1) ∙ length-set_condition output i c

  -- What `Collect` leaves at parameter `j`: what there was, and the pair's place.
  pub bit-collect :
      (output : List ℕ) (ps : List Pair) (i j b : ℕ)
      → num_words f ≤ length output
      → i + length ps ≤ params f
      → fits f ps i ≡ true
      → j < params f
      → bit (get_condition f (collect f output ps i) j) b ≡ (
          bit (get_condition f output j) b
          || (leb i j && ltb j (i + length ps) && pair_code f j (get_or ps (j - i) no_pair) == b))
  unfolding collect fits
  bit-collect output [] i j b long all h hj = ground arith
  bit-collect output (p ∷ ps) i j b long all h hj =
      let c = bit_or (get_condition f output i) (pair_mask f i p) in
      let here : fits_bits (f.bitsize i) p ≡ true = ground (arith, h) in
      let next = set_condition f output i c in
      let long' : num_words f ≤ length next = omega (arith, length-set_condition output i c) in
      let rest = λ (k : ℕ) (hk : k < params f).
        bit-collect next ps (i + 1) k b long' (omega arith) (ground (arith, h)) hk in
      let now =
        λ (k : ℕ) (hk : k < params f). bit-get_set f ok output k i c b long hk (omega arith) in
      elim (ℕ_discrete j i) [
        | yes e ↦
            let hi : i < params f = omega arith in
            let same : i - i ≡ 0 = omega arith in
            rw (e, same)
              (ground (
                arith,
                rest i hi,
                now i hi,
                bit-bit_or (get_condition f output i) (pair_mask f i p) b,
                bit-pair_mask i p b here,
                code-lt i p here,
                bit-get_condition_ge f ok output i b hi,
              ))
        | no ne ↦ elim (tri i j) [
          | inl lt ↦
              let down : j - i ≡ suc (j - (i + 1)) = omega arith in
              rw down (ground (arith, rest j hj, now j hj))
          | inr ge ↦ ground (arith, ge, rest j hj, now j hj)
        ]
      ]
