-- ===== src/Utils/Windows.antt =====
-- Bits of `Mask`, `GetWindowBits` and `SetWindowBits` of src/utils.h.
use nldtool.Base.{
  ℕ, ◌+◌, ◌-◌, ◌≤◌, ◌<◌, ◌≡◌, refl, arith, ◌&&◌, ltb, leb, ltb→lt, if◌then◌else◌, Bool-cases, inl,
  inr, bit_and,
}
use nldtool.Bits.{
  bit, bit-zero, bit-ge, bit-bit_and, bit-bit_or, bit-shr, bit-shl, bit-not64, not64, shr, shl,
  not64-IsWord, shl-IsWord, IsWord, bit_and-lt, bit_or-lt,
}
use nldtool.Utils.{mask, get_window_bits, set_window_bits}

pub bit-mask : (n i : ℕ) → n ≤ 64 → bit (mask n) i ≡ ltb i n
unfolding mask
bit-mask n i h = rw (bit-shr (not64 0) (64 - n) i) (elim (Bool-cases (ltb i n)) [
  | inl t ↦
      rw
        (t, bit-not64 0 (64 - n + i) (omega arith) (let lt = ltb→lt i n t in omega arith), bit-zero)
        refl
  | inr f ↦ rw f (bit-ge (not64 0) 64 (64 - n + i) (not64-IsWord 0) (ground arith))
])

-- Bit `i` of the window is bit `n + i` of the word, up to the width.
pub bit-get_window_bits :
    (word n w i : ℕ) → w ≤ 64 → bit (get_window_bits word n w) i ≡ (ltb i w && bit word (n + i))
unfolding get_window_bits
bit-get_window_bits word n w i le =
    ground (arith, bit-bit_and (shr word n) (mask w) i, bit-shr word n i, bit-mask w i le)

-- The bits of the window come from `b`, and the others stay.
pub bit-set_window_bits :
    (word n w b i : ℕ)
    → n + w ≤ 64
    → i < 64
    → bit (set_window_bits word n w b) i
      ≡ (if leb n i && ltb i (n + w) then bit b (i - n) else bit word i)
unfolding set_window_bits
bit-set_window_bits word n w b i le lt =
    let m = shl (mask w) n in
    ground (
      arith,
      bit-bit_or (bit_and word (not64 m)) (bit_and (shl b n) m) i,
      bit-bit_and word (not64 m) i,
      bit-bit_and (shl b n) m i,
      bit-not64 m i (shl-IsWord (mask w) n) lt,
      bit-shl (mask w) n i,
      bit-shl b n i,
      bit-mask w (i - n) (omega arith),
    )

pub set_window_bits-IsWord : (word n w b : ℕ) → IsWord (set_window_bits word n w b)
unfolding set_window_bits
set_window_bits-IsWord word n w b =
    let m = shl (mask w) n in
    bit_or-lt 64 (bit_and word (not64 m)) (bit_and (shl b n) m)
      (bit_and-lt 64 word (not64 m) (not64-IsWord m))
      (bit_and-lt 64 (shl b n) m (shl-IsWord (mask w) n))
