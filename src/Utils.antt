-- ===== src/Utils.antt =====
-- src/utils.h: the bit tricks on 64-bit words that the other components share. An `int` position or
-- width is a number, with the range that the source asserts stated where a law needs it.
pub mod Lsb
pub mod Windows
use nldtool.Base.{
  ℕ, zero, suc, ◌+◌, ◌-◌, ◌*◌, ◌/◌, ◌^◌, Bool, bit_and, bit_or, ltb, if◌then◌else◌, ◌&&◌, ◌==◌,
}
use nldtool.Bits.{bit, not64, shr, shl, add64, sub64, mul64}

-- `HammingWeight<uint64_t>`; `~(T)0 / 3` and its kin are the masks 0x5555…, 0x3333…, 0x0f0f…, 0x0101….
unfoldable pub hamming_weight : ℕ → ℕ
hamming_weight v =
    let v1 = sub64 v (bit_and (shr v 1) (not64 0 / 3)) in
    let v2 = add64 (bit_and v1 (not64 0 / 15 * 3)) (bit_and (shr v1 2) (not64 0 / 15 * 3)) in
    let v3 = bit_and (add64 v2 (shr v2 4)) (not64 0 / 255 * 15) in shr (mul64 v3 (not64 0 / 255)) 56

-- `LeastSignificantSetBitmask<uint64_t>`: `x & ~(x - 1)`.
unfoldable pub least_significant_set_bitmask : ℕ → ℕ
least_significant_set_bitmask x = bit_and x (not64 (sub64 x 1))

-- `Mask(n)` for `0 ≤ n ≤ 64`; at 0 the source shifts by 64.
unfoldable pub mask : ℕ → ℕ
mask n = shr (not64 0) (64 - n)

-- `SetBits(word, mask, b)`; `-b` is all ones or zero.
unfoldable pub set_bits : ℕ → ℕ → Bool → ℕ
set_bits word m b = bit_or (bit_and word (not64 m)) (bit_and (if b then not64 0 else 0) m)

-- `SetBit(word, n, b)`.
unfoldable pub set_bit_to : ℕ → ℕ → Bool → ℕ
set_bit_to word n b = set_bits word (shl 1 n) b

-- `SetBit(word, n)`.
unfoldable pub set_bit : ℕ → ℕ → ℕ
set_bit word n = bit_or word (shl 1 n)

-- `ClrBit(word, n)`.
unfoldable pub clr_bit : ℕ → ℕ → ℕ
clr_bit word n = bit_and word (not64 (shl 1 n))

-- `GetBit(word, n)`.
unfoldable pub get_bit : ℕ → ℕ → ℕ
get_bit word n = bit_and (shr word n) 1

-- `SetWindowBits(word, n, w, b)`.
unfoldable pub set_window_bits : ℕ → ℕ → ℕ → ℕ → ℕ
set_window_bits word n w b =
    let bits = shl b n in let m = shl (mask w) n in bit_or (bit_and word (not64 m)) (bit_and bits m)

-- `GetWindowBits(word, n, w)`.
unfoldable pub get_window_bits : ℕ → ℕ → ℕ → ℕ
get_window_bits word n w = bit_and (shr word n) (mask w)

-- `SwapBits(a, i, j, w)`: both windows are read before either is written, since the references
-- `ai` and `aj` bind copies.
unfoldable pub swap_bits : ℕ → ℕ → ℕ → ℕ → ℕ
swap_bits a i j w =
    let ai = get_window_bits a (i * w) w in
    let aj = get_window_bits a (j * w) w in
    set_window_bits (set_window_bits a (i * w) w aj) (j * w) w ai

-- `Shr(w, x, N)`, `Shl(w, x, N)`, `Rotr(w, x, N)` and `Rotl(w, x, N)`, on the low `N` bits.
unfoldable pub shr_n : ℕ → ℕ → ℕ → ℕ
shr_n w x n = bit_and (shr w x) (mask (n - x))

unfoldable pub shl_n : ℕ → ℕ → ℕ → ℕ
shl_n w x n = bit_and (shl w x) (mask n)

unfoldable pub rotr : ℕ → ℕ → ℕ → ℕ
rotr w x n = bit_and (bit_or (shr (bit_and w (mask n)) x) (shl w (n - x))) (mask n)

unfoldable pub rotl : ℕ → ℕ → ℕ → ℕ
rotl w x n = bit_and (bit_or (shl w x) (shr (bit_and w (mask n)) (n - x))) (mask n)

-- `Rotl<N>(w, x)`: here the mask stands on the left shift, and the right shift takes all of `w`.
unfoldable pub rotl_fixed : ℕ → ℕ → ℕ → ℕ
rotl_fixed w x n = bit_and (bit_or (shl (bit_and w (mask n)) x) (shr w (n - x))) (mask n)

-- `Log2(x)`, with fuel `x`.
log2_loop : ℕ → ℕ → ℕ
log2_loop zero x = 0
log2_loop (suc fuel) x = let rest = log2_loop fuel (x / 2) in if ltb x 2 then 0 else 1 + rest

unfoldable pub log2 : ℕ → ℕ
unfolding log2_loop
log2 x = log2_loop x x
