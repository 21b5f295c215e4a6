-- ===== src/Utils/Lsb.antt =====
-- `LeastSignificantSetBitmask` isolates the lowest one of a word.
use nldtool.Base.{
  ℕ, zero, suc, ◌-◌, ◌/◌, ◌%◌, ◌^◌, ◌<◌, ◌≡◌, ◌≢◌, arith, true, false, ◌==◌, ltb, if◌then◌else◌,
  inl, inr, Bool-cases,
}
use nldtool.Bits.{
  bit, bit-zero, bit-bit_and, bit-two_pow, bit-not64, not64-IsWord, IsWord, word_ext, sub64,
  bit_and-lt, two_pow-suc, two_pow-lt, not64,
}
use nldtool.Utils.{least_significant_set_bitmask}

-- `t` is the position of the lowest one of `w`.
pub record IsLowest (w t : ℕ) : Type 0 where
  pub there : bit w t ≡ true
  pub below : (i : ℕ) → i < t → bit w i ≡ false

pub IsLowest-exists : (k w : ℕ) → w ≢ 0 → w < 2 ^ k → (t : ℕ) × (t < k) × IsLowest w t
unfolding bit
IsLowest-exists zero w ne h = absurd (ne (omega arith))
IsLowest-exists (suc k) w ne h = elim (Bool-cases (w % 2 == 1)) [
  | inl odd ↦ (0, omega arith, record { there = odd; below = λ i lt. absurd (omega arith) })
  | inr even ↦
      let rest =
        IsLowest-exists k (w / 2) (λ e. ne (ground arith)) (omega (arith, two_pow-suc k)) in
      (
        suc rest.0,
        omega (arith, rest.1),
        record { there = rest.2.there; below = below even rest.2 },
      )
]
  where
    below :
        w % 2 == 1 ≡ false → {t : ℕ} → IsLowest (w / 2) t → (i : ℕ) → i < suc t → bit w i ≡ false
    below even l zero lt = even
    below even l (suc i) lt = l.below i (omega arith)

bit-true-pos : (w t : ℕ) → bit w t ≡ true → 0 < w
bit-true-pos zero t h = let z = bit-zero t in cc
bit-true-pos (suc w) t h = omega arith

bit-pred :
    (t w i : ℕ)
    → IsLowest w t
    → bit (w - 1) i ≡ (if ltb i t then true else if i == t then false else bit w i)
unfolding bit
bit-pred zero w zero l = ground (arith, l.there)
bit-pred zero w (suc i) l =
    let e : (w - 1) / 2 ≡ w / 2 = ground (arith, l.there) in rw e (ground arith)
bit-pred (suc t) w zero l = ground (arith, l.below 0 (omega arith), bit-true-pos (w / 2) t l.there)
bit-pred (suc t) w (suc i) l =
    let e : (w - 1) / 2 ≡ w / 2 - 1 =
      ground (arith, l.below 0 (omega arith), bit-true-pos (w / 2) t l.there) in
    let half : IsLowest (w / 2) t = record {
      there = l.there;
      below = λ j lt. l.below (suc j) (omega arith);
    } in
    rw e (ground (arith, bit-pred t (w / 2) i half))

sub64-one : (w : ℕ) → IsWord w → 0 < w → sub64 w 1 ≡ w - 1
unfolding sub64
sub64-one w h pos = omega arith

-- For a 64-bit word whose lowest one is bit `t`, `LeastSignificantSetBitmask` is the power of two at `t`.
pub lsb-eq-two_pow :
    (w t : ℕ) → IsWord w → t < 64 → IsLowest w t → least_significant_set_bitmask w ≡ 2 ^ t
unfolding least_significant_set_bitmask
lsb-eq-two_pow w t h lt l =
    word_ext (least_significant_set_bitmask w) (2 ^ t)
      (bit_and-lt 64 w _ (not64-IsWord (sub64 w 1))) (two_pow-lt t 64 lt)
      λ i below.
        let pos = bit-true-pos w t l.there in
        let e = sub64-one w h pos in
        rw
          (
            bit-bit_and w (not64 (sub64 w 1)) i,
            e,
            bit-not64 (w - 1) i (omega arith) below,
            bit-pred t w i l,
            bit-two_pow t i,
          )
          (ground (arith, l.below i, l.there))
