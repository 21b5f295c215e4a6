-- ===== src/BitMatrix/Pivot.antt =====
-- `ComputePivot` of src/bit_matrix.cpp finds the first column of a row that is set, and the pivot of
-- a sum of rows follows the case split of `XorRowtoRow` and `XorRow`.
use native.Mathlib.Decide.{ℕ_discrete}
use nldtool.Base.{
  tabulate-agree, ℕ, zero, suc, ◌+◌, ◌*◌, ◌%◌, ◌^◌, ◌≤◌, ◌<◌, ◌≡◌, refl, arith, Bool, true, false,
  List, ◌==◌, xor,
}
use nldtool.Bits.{bit-zero, shr}
use nldtool.Utils.Lsb.{IsLowest, IsLowest-exists, lsb-eq-two_pow}
use nldtool.BitMatrix.{word_at, log_of_mask, pivot_loop}
use nldtool.BitMatrix.Blocks.{col_bit, AllWords}

-- `p` is the first of `n` columns at which `f` holds, or `n` where there is none.
pub record IsPivot (n : ℕ) (f : ℕ → Bool) (p : ℕ) : Type 0 where
  pub bounded : p ≤ n
  pub below : (c : ℕ) → c < p → f c ≡ false
  pub there : p < n → f p ≡ true

-- The table lookup inverts `1 << k`.
pub log_of_mask-two_pow : (k : ℕ) → k < 64 → log_of_mask (2 ^ k) ≡ k
unfolding log_of_mask shr
log_of_mask-two_pow k h = tabulate-agree 64 (λ v. log_of_mask (2 ^ v)) (λ v. v) refl k h

module _ (ws : List ℕ) (start n : ℕ) (words : AllWords ws) where
  pub record Found (n0 r : ℕ) : Type 0 where
    pub from : 64 * n0 ≤ r
    pub upto : r ≤ 64 * n
    pub zeros : (c : ℕ) → 64 * n0 ≤ c → c < r → col_bit ws start c ≡ false
    pub one : r < 64 * n → col_bit ws start r ≡ true

  Found-later : {n0 r : ℕ} → word_at ws (start + n0) ≡ 0 → Found (n0 + 1) r → Found n0 r
  unfolding col_bit
  Found-later {n0} {r} z f = record {
    from = omega (arith, f.from);
    upto = f.upto;
    zeros = λ c lo hi. ground (arith, f.zeros c, bit-zero (c % 64));
    one = f.one;
  }

  Found-here :
      (n0 t : ℕ) → n0 < n → t < 64 → IsLowest (word_at ws (start + n0)) t → Found n0 (t + n0 * 64)
  unfolding col_bit
  Found-here n0 t lt lt64 l = record {
    from = omega arith;
    upto = omega arith;
    zeros = λ c lo hi. ground (arith, l.below (c % 64));
    one = λ _. ground (arith, l.there);
  }

  pivot_loop-Found : (left n0 : ℕ) → n0 + left ≡ n → Found n0 (pivot_loop ws start (64 * n) left n0)
  unfolding pivot_loop
  pivot_loop-Found zero n0 e = record {
    from = omega arith;
    upto = omega arith;
    zeros = λ c lo hi. absurd (omega arith);
    one = λ h. absurd (omega arith);
  }
  pivot_loop-Found (suc left) n0 e = elim (ℕ_discrete (word_at ws (start + n0)) 0) [
    | yes z ↦
        let test : (word_at ws (start + n0) == 0) ≡ true = ground arith in
        rw test (Found-later z (pivot_loop-Found left (n0 + 1) (omega arith)))
    | no nz ↦
        let test : (word_at ws (start + n0) == 0) ≡ false = ground arith in
        let low = IsLowest-exists 64 (word_at ws (start + n0)) nz (words (start + n0)) in
        let log = lsb-eq-two_pow _ low.0 (words (start + n0)) low.1 low.2 in
        rw (test, log, log_of_mask-two_pow low.0 low.1)
          (Found-here n0 low.0 (omega arith) low.1 low.2)
  ]

-- On 64-bit words, the loop of `ComputePivot` over a row of `n` words gives the first set column of the row, or the
-- number of columns where none is set.
pub pivot_loop-IsPivot :
    (ws : List ℕ) (start n : ℕ)
    → AllWords ws
    → IsPivot (64 * n) (col_bit ws start) (pivot_loop ws start (64 * n) n 0)
pivot_loop-IsPivot ws start n words = record {
  bounded = f.upto;
  below = λ c lt. f.zeros c (omega arith) lt;
  there = f.one;
}
  where
    f : Found ws start n words 0 (pivot_loop ws start (64 * n) n 0)
    f = pivot_loop-Found ws start n words n 0 (omega arith)

pub IsPivot-unique : {n : ℕ} {f : ℕ → Bool} {p q : ℕ} → IsPivot n f p → IsPivot n f q → p ≡ q
IsPivot-unique {n} {f} {p} {q} a b =
    ground (arith, a.below q, b.below p, a.there, b.there, a.bounded, b.bounded)

pub IsPivot-ext :
    {n : ℕ} {f g : ℕ → Bool} {p : ℕ} → ((c : ℕ) → c < n → f c ≡ g c) → IsPivot n f p → IsPivot n g p
IsPivot-ext {n} {f} {g} {p} h a = record {
  bounded = a.bounded;
  below = λ c lt. ground (arith, h c (omega (arith, a.bounded)), a.below c);
  there = λ lt. ground (arith, h p lt, a.there);
}

-- A row whose pivot lies further right takes the smaller pivot.
pub IsPivot-xor_lt :
    {n : ℕ} {f g : ℕ → Bool} {p q : ℕ}
    → IsPivot n f p
    → IsPivot n g q
    → q < p
    → IsPivot n (λ c. xor (f c) (g c)) q
unfolding xor
IsPivot-xor_lt {q = q} a b lt = record {
  bounded = b.bounded;
  below = λ c h. ground (arith, a.below c, b.below c);
  there = λ h. ground (arith, a.below q, b.there);
}

-- A row whose pivot lies further left keeps it.
pub IsPivot-xor_gt :
    {n : ℕ} {f g : ℕ → Bool} {p q : ℕ}
    → IsPivot n f p
    → IsPivot n g q
    → p < q
    → IsPivot n (λ c. xor (f c) (g c)) p
unfolding xor
IsPivot-xor_gt {p = p} a b lt = record {
  bounded = a.bounded;
  below = λ c h. ground (arith, a.below c, b.below c);
  there = λ h. ground (arith, a.there, b.below p);
}
