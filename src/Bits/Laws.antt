-- ===== src/Bits/Laws.antt =====
-- The bits of shifted, masked and complemented numbers, and numbers determined by their bits.
use native.Mathlib.Nat.{
  pow-suc, one-le-pow, div-div-eq-div-mul, div-one, mod-one, mod-eq-sub-div-mul, div-mul-le_self,
}
use nldtool.Base.{
  ℕ, zero, suc, ◌+◌, ◌-◌, ◌*◌, ◌/◌, ◌%◌, ◌^◌, ◌≤◌, ◌<◌, ◌≡◌, refl, arith, false, not, ◌&&◌, ◌==◌,
  ltb, if◌then◌else◌, ap, sym, ◌∙◌,
}
use nldtool.Bits.Digits.{bit}

pub two_pow-suc : (k : ℕ) → 2 ^ suc k ≡ 2 * 2 ^ k
two_pow-suc k = omega (arith, pow-suc 2 k)

pub two_pow-pos : (k : ℕ) → 0 < 2 ^ k
two_pow-pos k = one-le-pow k 2 (omega arith)

pub two_pow-lt : (k n : ℕ) → k < n → 2 ^ k < 2 ^ n
two_pow-lt k zero h = absurd (omega arith)
two_pow-lt zero (suc n) h = omega (arith, two_pow-suc n, two_pow-pos n)
two_pow-lt (suc k) (suc n) h =
    omega (arith, two_pow-suc k, two_pow-suc n, two_pow-lt k n (omega arith))

mul-two_pow-suc : (q k : ℕ) → q * 2 ^ suc k ≡ 2 * (q * 2 ^ k)
mul-two_pow-suc q k = omega (arith, ap (λ (t : ℕ). q * t) (two_pow-suc k))

pub bit-zero : (i : ℕ) → bit 0 i ≡ false
unfolding bit
bit-zero zero = refl
bit-zero (suc i) = bit-zero i

-- Two numbers below `2 ^ w` with the same low `w` bits are equal.
pub bit_ext : (w x y : ℕ) → x < 2 ^ w → y < 2 ^ w → ((i : ℕ) → i < w → bit x i ≡ bit y i) → x ≡ y
unfolding bit
bit_ext zero x y hx hy h = omega arith
bit_ext (suc w) x y hx hy h = ground (
  arith,
  two_pow-suc w,
  h 0 (omega arith),
  bit_ext w (x / 2) (y / 2) (omega (arith, two_pow-suc w)) (omega (arith, two_pow-suc w))
      (λ i lt. h (suc i) (omega arith)),
)

div-two_pow-suc : (x k : ℕ) → x / 2 ^ suc k ≡ x / 2 / 2 ^ k
div-two_pow-suc x k = rw two_pow-suc (sym (div-div-eq-div-mul x 2 (2 ^ k)))

bit-suc_add : (x k i : ℕ) → bit x (suc k + i) ≡ bit (x / 2) (k + i)
unfolding bit
bit-suc_add x k i = let e : suc k + i ≡ suc (k + i) = omega arith in rw e refl

pub bit-div : (x k i : ℕ) → bit (x / 2 ^ k) i ≡ bit x (k + i)
unfolding bit
bit-div x zero i = let z : 0 + i ≡ i = omega arith in rw (div-one, z)
bit-div x (suc k) i = rw (div-two_pow-suc x k) (bit-div (x / 2) k i ∙ sym (bit-suc_add x k i))

pub bit-mul : (x k i : ℕ) → bit (x * 2 ^ k) i ≡ (if ltb i k then false else bit x (i - k))
unfolding bit
bit-mul x zero i =
    let e : x * 1 ≡ x = omega arith in let z : i - 0 ≡ i = omega arith in rw (e, z) (ground arith)
bit-mul x (suc k) zero = ground (arith, mul-two_pow-suc x k)
bit-mul x (suc k) (suc i) =
    let e : x * 2 ^ suc k / 2 ≡ x * 2 ^ k = omega (arith, mul-two_pow-suc x k) in
    rw e (ground (arith, bit-mul x k i))

mod-two_pow-suc : (x w : ℕ) → x % 2 ^ suc w ≡ x / 2 % 2 ^ w * 2 + x % 2
mod-two_pow-suc x w = omega (
  arith,
  mod-eq-sub-div-mul x (2 ^ suc w),
  mod-eq-sub-div-mul (x / 2) (2 ^ w),
  div-two_pow-suc x w,
  mul-two_pow-suc (x / 2 / 2 ^ w) w,
  ap (λ (t : ℕ). t * 2 ^ suc w) (div-two_pow-suc x w),
  div-mul-le_self (x / 2) (2 ^ w),
)

pub bit-mod : (x w i : ℕ) → bit (x % 2 ^ w) i ≡ (ltb i w && bit x i)
unfolding bit
bit-mod x zero i = rw mod-one (ground (arith, bit-zero i))
bit-mod x (suc w) zero = ground (arith, mod-two_pow-suc x w)
bit-mod x (suc w) (suc i) =
    let e : x % 2 ^ suc w / 2 ≡ x / 2 % 2 ^ w = omega (arith, mod-two_pow-suc x w) in
    rw e (bit-mod (x / 2) w i ∙ ground arith)

pub bit-ge : (x w i : ℕ) → x < 2 ^ w → w ≤ i → bit x i ≡ false
unfolding bit
bit-ge x zero i h le = let e : x ≡ 0 = omega arith in rw e (bit-zero i)
bit-ge x (suc w) zero h le = absurd (omega arith)
bit-ge x (suc w) (suc i) h le = bit-ge (x / 2) w i (omega (arith, two_pow-suc w)) (omega arith)

pub bit-sub : (w x i : ℕ) → x < 2 ^ w → i < w → bit (2 ^ w - 1 - x) i ≡ not (bit x i)
unfolding bit
bit-sub zero x i h lt = absurd (omega arith)
bit-sub (suc w) x zero h lt = ground (arith, two_pow-suc w)
bit-sub (suc w) x (suc i) h lt =
    let e : (2 ^ suc w - 1 - x) / 2 ≡ 2 ^ w - 1 - x / 2 = omega (arith, two_pow-suc w) in
    rw e (bit-sub w (x / 2) i (omega (arith, two_pow-suc w)) (omega arith))

pub bit-two_pow : (k i : ℕ) → bit (2 ^ k) i ≡ (k == i)
unfolding bit
bit-two_pow zero zero = refl
bit-two_pow zero (suc i) = bit-zero i ∙ ground arith
bit-two_pow (suc k) zero = ground (arith, two_pow-suc k)
bit-two_pow (suc k) (suc i) =
    let e : 2 ^ suc k / 2 ≡ 2 ^ k = omega (arith, two_pow-suc k) in
    rw e (bit-two_pow k i ∙ ground arith)
