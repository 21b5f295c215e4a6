-- ===== src/Bits/Digits.antt =====
-- The lowest binary digit and the rest of a conjunction, a disjunction and an exclusive or, from the
-- recursion that the native operations stand for, and the bit of a number at a position.
use Prim.Native.Nat.{digits, bitwise, differ, bit_and-bitwise, bit_or-bitwise, bit_xor-bitwise}
use nldtool.Base.{
  ℕ, zero, suc, ◌+◌, ◌-◌, ◌*◌, ◌/◌, ◌%◌, ◌≤◌, min, max, bit_and, bit_or, bit_xor, ◌≡◌, refl, sym,
  ◌∙◌, arith, Bool, ◌&&◌, ◌||◌, ◌==◌, xor,
}

-- Rounds of `digits` beyond the first operand change nothing.
module _ (rest : ℕ → ℕ) (combine : ℕ → ℕ → ℕ) where
  digits-zero : (fuel y : ℕ) → digits rest combine fuel 0 y ≡ rest y
  digits-zero zero y = refl
  digits-zero (suc fuel) y = refl

  digits-surplus :
      (x fuel extra y : ℕ)
      → x ≤ fuel
      → digits rest combine (extra + fuel) x y ≡ digits rest combine fuel x y
  digits-surplus zero fuel extra y h = digits-zero (extra + fuel) y ∙ sym (digits-zero fuel y)
  digits-surplus (suc x) zero extra y h = absurd (omega arith)
  digits-surplus (suc x) (suc fuel) extra y h =
      let shift : extra + suc fuel ≡ suc (extra + fuel) = omega arith in
      let half = digits-surplus (suc x / 2) fuel extra (y / 2) (omega arith) in
      rw shift (omega (arith, half))

  bitwise-halves :
      (x y : ℕ)
      → bitwise rest combine (suc x) y
        ≡ combine (suc x % 2) (y % 2) + 2 * bitwise rest combine (suc x / 2) (y / 2)
  bitwise-halves x y =
      let more : x - suc x / 2 + suc x / 2 ≡ x = omega arith in
      let half = digits-surplus (suc x / 2) (suc x / 2) (x - suc x / 2) (y / 2) (omega arith) in
      omega (arith, rw more at half)

pub bit_or_step : (x y : ℕ) → bit_or x y ≡ max (x % 2) (y % 2) + 2 * bit_or (x / 2) (y / 2)
bit_or_step zero y = simp bit_or-bitwise (omega arith)
bit_or_step (suc x) y = simp bit_or-bitwise (bitwise-halves (λ v. v) max x y)

pub bit_and_step : (x y : ℕ) → bit_and x y ≡ min (x % 2) (y % 2) + 2 * bit_and (x / 2) (y / 2)
bit_and_step zero y = simp bit_and-bitwise (omega arith)
bit_and_step (suc x) y = simp bit_and-bitwise (bitwise-halves (λ v. 0) min x y)

differ_zero : (b : ℕ) → differ 0 b ≡ b
differ_zero b = refl

pub differ_parts : (a b : ℕ) → differ a b ≡ (a - b) + (b - a)
differ_parts zero b = omega arith
differ_parts (suc a) zero = omega arith
differ_parts (suc a) (suc b) = omega (arith, differ_parts a b)

pub bit_xor_step : (x y : ℕ) → bit_xor x y ≡ differ (x % 2) (y % 2) + 2 * bit_xor (x / 2) (y / 2)
bit_xor_step zero y = simp bit_xor-bitwise (omega (arith, differ_zero (y % 2)))
bit_xor_step (suc x) y = simp bit_xor-bitwise (bitwise-halves (λ v. v) differ x y)

-- The bit of `x` at position `i`, `(x >> i) & 1`.
unfoldable pub bit : ℕ → ℕ → Bool
bit x zero = x % 2 == 1
bit x (suc i) = bit (x / 2) i

pub bit-bit_and : (a b i : ℕ) → bit (bit_and a b) i ≡ (bit a i && bit b i)
unfolding bit
bit-bit_and a b zero = ground (arith, bit_and_step a b)
bit-bit_and a b (suc i) =
    let e : bit_and a b / 2 ≡ bit_and (a / 2) (b / 2) = omega (arith, bit_and_step a b) in
    rw e (bit-bit_and (a / 2) (b / 2) i)

pub bit-bit_or : (a b i : ℕ) → bit (bit_or a b) i ≡ (bit a i || bit b i)
unfolding bit
bit-bit_or a b zero = ground (arith, bit_or_step a b)
bit-bit_or a b (suc i) =
    let e : bit_or a b / 2 ≡ bit_or (a / 2) (b / 2) = omega (arith, bit_or_step a b) in
    rw e (bit-bit_or (a / 2) (b / 2) i)

pub bit-bit_xor : (a b i : ℕ) → bit (bit_xor a b) i ≡ xor (bit a i) (bit b i)
unfolding bit xor
bit-bit_xor a b zero = ground (arith, bit_xor_step a b, differ_parts (a % 2) (b % 2))
bit-bit_xor a b (suc i) =
    let e : bit_xor a b / 2 ≡ bit_xor (a / 2) (b / 2) =
      omega (arith, bit_xor_step a b, differ_parts (a % 2) (b % 2)) in
    rw e (bit-bit_xor (a / 2) (b / 2) i)
