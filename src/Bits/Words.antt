-- ===== src/Bits/Words.antt =====
-- 64-bit machine words as native numbers below `2 ^ 64`: the C operators that can leave that
-- range, with the wrap written out, and the bits of their results.
use native.Mathlib.Nat.{div-le_self}
use nldtool.Base.{
  ℕ, zero, suc, ◌+◌, ◌-◌, ◌*◌, ◌/◌, ◌%◌, ◌^◌, ◌≤◌, ◌<◌, ◌≡◌, refl, arith, false, not, ◌&&◌, ltb,
  if◌then◌else◌, bit_and, bit_or, bit_xor,
}
use nldtool.Bits.Digits.{bit, bit_or_step, bit_and_step, bit_xor_step, differ_parts}
use nldtool.Bits.Laws.{bit_ext, bit-div, bit-mul, bit-mod, bit-sub, two_pow-suc}

-- A conjunction with zero, in as many halvings as the other operand.
and_zero_halving : (size x : ℕ) → x ≤ size → bit_and x 0 ≡ 0
and_zero_halving size zero le = refl
and_zero_halving (suc size) (suc x) le =
    let half = and_zero_halving size (suc x / 2) (omega arith) in
    omega (arith, half, bit_and_step (suc x) 0)
and_zero_halving zero (suc x) le = absurd (omega arith)

pub bit_and-zero : (x : ℕ) → bit_and x 0 ≡ 0
bit_and-zero x = and_zero_halving x x (omega arith)

pub bit_and-one : (x : ℕ) → bit_and x 1 ≡ x % 2
bit_and-one x = omega (arith, bit_and_step x 1, bit_and-zero (x / 2))

pub bit_and-lt : (w a b : ℕ) → b < 2 ^ w → bit_and a b < 2 ^ w
bit_and-lt zero a b hb = let e : b ≡ 0 = omega arith in rw e (omega (arith, bit_and-zero a))
bit_and-lt (suc w) a b hb = omega (
  arith,
  bit_and_step a b,
  two_pow-suc w,
  bit_and-lt w (a / 2) (b / 2) (omega (arith, two_pow-suc w)),
)

pub bit_or-lt : (w a b : ℕ) → a < 2 ^ w → b < 2 ^ w → bit_or a b < 2 ^ w
bit_or-lt zero a b ha hb =
    let e : a ≡ 0 = omega arith in let f : b ≡ 0 = omega arith in rw (e, f) (omega arith)
bit_or-lt (suc w) a b ha hb = omega (
  arith,
  bit_or_step a b,
  two_pow-suc w,
  bit_or-lt w (a / 2) (b / 2) (omega (arith, two_pow-suc w)) (omega (arith, two_pow-suc w)),
)

pub bit_xor-lt : (w a b : ℕ) → a < 2 ^ w → b < 2 ^ w → bit_xor a b < 2 ^ w
bit_xor-lt zero a b ha hb =
    let e : a ≡ 0 = omega arith in let f : b ≡ 0 = omega arith in rw (e, f) (omega arith)
bit_xor-lt (suc w) a b ha hb = omega (
  arith,
  bit_xor_step a b,
  differ_parts (a % 2) (b % 2),
  two_pow-suc w,
  bit_xor-lt w (a / 2) (b / 2) (omega (arith, two_pow-suc w)) (omega (arith, two_pow-suc w)),
)

bit_or-ge_fuel : (n a b : ℕ) → b ≤ n → b ≤ bit_or a b
bit_or-ge_fuel n a zero h = omega arith
bit_or-ge_fuel zero a (suc b) h = absurd (omega arith)
bit_or-ge_fuel (suc n) a (suc b) h =
    omega (arith, bit_or_step a (suc b), bit_or-ge_fuel n (a / 2) (suc b / 2) (omega arith))

pub bit_or-ge : (a b : ℕ) → b ≤ bit_or a b
bit_or-ge a b = bit_or-ge_fuel b a b (omega arith)

zero_and_fuel : (n b : ℕ) → b ≤ n → bit_and 0 b ≡ 0
zero_and_fuel n zero h = refl
zero_and_fuel zero (suc b) h = absurd (omega arith)
zero_and_fuel (suc n) (suc b) h =
    omega (arith, bit_and_step 0 (suc b), zero_and_fuel n (suc b / 2) (omega arith))

pub zero_and : (b : ℕ) → bit_and 0 b ≡ 0
zero_and b = zero_and_fuel b b (omega arith)

bit_or-zero_fuel : (n b : ℕ) → b ≤ n → bit_or 0 b ≡ b
bit_or-zero_fuel n zero h = refl
bit_or-zero_fuel zero (suc b) h = absurd (omega arith)
bit_or-zero_fuel (suc n) (suc b) h =
    omega (arith, bit_or_step 0 (suc b), bit_or-zero_fuel n (suc b / 2) (omega arith))

or_zero_fuel : (n a : ℕ) → a ≤ n → bit_or a 0 ≡ a
or_zero_fuel n zero h = refl
or_zero_fuel zero (suc a) h = absurd (omega arith)
or_zero_fuel (suc n) (suc a) h =
    omega (arith, bit_or_step (suc a) 0, or_zero_fuel n (suc a / 2) (omega arith))

pub or_zero : (a : ℕ) → bit_or a 0 ≡ a
or_zero a = or_zero_fuel a a (omega arith)

pub bit_or-zero : (b : ℕ) → bit_or 0 b ≡ b
bit_or-zero b = bit_or-zero_fuel b b (omega arith)

-- `~x`.
unfoldable pub not64 : ℕ → ℕ
not64 x = 2 ^ 64 - 1 - x

-- `x >> k`.
unfoldable pub shr : ℕ → ℕ → ℕ
shr x k = x / 2 ^ k

-- `x << k`.
unfoldable pub shl : ℕ → ℕ → ℕ
shl x k = x * 2 ^ k % 2 ^ 64

-- `x + y`, `x - y` and `x * y`; the modulus is added first, since `-` stops at 0.
unfoldable pub add64 : ℕ → ℕ → ℕ
add64 x y = (x + y) % 2 ^ 64

unfoldable pub sub64 : ℕ → ℕ → ℕ
sub64 x y = (x + 2 ^ 64 - y) % 2 ^ 64

unfoldable pub mul64 : ℕ → ℕ → ℕ
mul64 x y = x * y % 2 ^ 64

abbrev pub IsWord : ℕ → Type 0
IsWord x = x < 2 ^ 64

pub bit-not64 : (x i : ℕ) → IsWord x → i < 64 → bit (not64 x) i ≡ not (bit x i)
unfolding not64
bit-not64 x i h lt = bit-sub 64 x i h lt

pub bit-shr : (x k i : ℕ) → bit (shr x k) i ≡ bit x (k + i)
unfolding shr
bit-shr x k i = bit-div x k i

pub bit-shl :
    (x k i : ℕ) → bit (shl x k) i ≡ (ltb i 64 && (if ltb i k then false else bit x (i - k)))
unfolding shl
bit-shl x k i = rw (bit-mod (x * 2 ^ k) 64 i) (rw (bit-mul x k i))

pub not64-IsWord : (x : ℕ) → IsWord (not64 x)
unfolding not64
not64-IsWord x = omega arith

pub shl-IsWord : (x k : ℕ) → IsWord (shl x k)
unfolding shl
shl-IsWord x k = omega arith

pub shr-le : (x k : ℕ) → shr x k ≤ x
unfolding shr
shr-le x k = div-le_self x (2 ^ k)

pub word_ext : (x y : ℕ) → IsWord x → IsWord y → ((i : ℕ) → i < 64 → bit x i ≡ bit y i) → x ≡ y
word_ext x y hx hy h = bit_ext 64 x y hx hy h
