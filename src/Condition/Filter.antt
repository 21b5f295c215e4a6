-- ===== src/Condition/Filter.antt =====
-- `Filter0`, `Filter1` and `Filter2` of src/condition.h: what is left of a word of values, in the layout where a
-- value is the number made of the pairs as digits in base 4.
use native.Mathlib.Decide.{ℕ_discrete}
use nldtool.Base.{
  ℕ, zero, suc, ◌+◌, ◌-◌, ◌*◌, ◌/◌, ◌%◌, ◌<◌, ◌≡◌, refl, arith, Bool, true, false, not, ◌==◌, ◌&&◌,
  ◌||◌, ltb, leb, if◌then◌else◌, bit_and, bit_or,
}
use nldtool.Bits.{
  bit, shl, sub64, not64, bit-bit_and, bit-bit_or, bit-shl, bit-zero, bit-ge, bit-not64,
}
use nldtool.Condition.{all_or_none, repeat_loop, spread_loop}
use nldtool.Condition.Two
use nldtool.Condition.Three

bit-all_or_none : (t : Bool) (p : ℕ) → p < 64 → bit (all_or_none t) p ≡ t
unfolding all_or_none sub64
bit-all_or_none true p lt =
    let ones : 18446744073709551615 ≡ not64 0 = unfold not64 in refl in
    rw (ones, bit-not64 0 p (omega arith) lt, bit-zero) refl
bit-all_or_none false p lt = bit-zero p

repeat_loop-bit :
    (left i bc tmp p : ℕ)
    → bc < 16
    → p < 64
    → bit (repeat_loop left i bc tmp) p
      ≡ (bit tmp p || (leb i (p / 4) && ltb (p / 4) (i + left) && bit bc (p % 4)))
repeat_loop-bit zero i bc tmp p b lt = unfold repeat_loop in ground arith
repeat_loop-bit (suc left) i bc tmp p b lt =
    let next = bit_or tmp (shl bc (i * 4)) in
    let step : repeat_loop (suc left) i bc tmp ≡ repeat_loop left (i + 1) bc next =
      unfold repeat_loop in refl in
    let facts = repeat_loop-bit left (i + 1) bc next p b lt in
    rw step (elim (ℕ_discrete (p / 4) i) [
      | yes e ↦
          let at : p - i * 4 ≡ p % 4 = omega arith in
          ground (arith, facts, bit-bit_or tmp (shl bc (i * 4)) p, bit-shl bc (i * 4) p, at)
      | no ne ↦ ground (
        arith,
        facts,
        bit-bit_or tmp (shl bc (i * 4)) p,
        bit-shl bc (i * 4) p,
        bit-ge bc 4 (p - i * 4) b,
      )
    ])

-- The lanes from `i` on hold value `p` just when the lane is `part`.
unfoldable lanes : ℕ → ℕ → ℕ → ℕ → ℕ → ℕ → Bool
lanes zero i lane step part p = true
lanes (suc left) i lane step part p =
    (if part == i then bit (shl lane (i * step)) p else not (bit (shl lane (i * step)) p))
    && lanes left (i + 1) lane step part p

spread_loop-bit :
    (left i lane step bc tmp part p : ℕ)
    → p < 64
    → lanes left i lane step part p ≡ true
    → bit (spread_loop left i lane step bc tmp) p
      ≡ (bit tmp p || (leb i part && ltb part (i + left) && bit bc part))
spread_loop-bit zero i lane step bc tmp part p lt h = unfold spread_loop in ground arith
spread_loop-bit (suc left) i lane step bc tmp part p lt h =
    let group = bit_and (shl lane (i * step)) (all_or_none (bit bc i)) in
    let next = bit_or tmp group in
    let h' : ((if part == i then bit (shl lane (i * step)) p else not (bit (shl lane (i * step)) p))
          && lanes left (i + 1) lane step part p)
        ≡ true =
      unfold lanes in h in
    let h'' : lanes left (i + 1) lane step part p ≡ true = ground arith in
    let once : spread_loop (suc left) i lane step bc tmp
        ≡ spread_loop left (i + 1) lane step bc next =
      unfold spread_loop in refl in
    rw once (elim (ℕ_discrete part i) [
      | yes e ↦ ground (
        arith,
        e,
        spread_loop-bit left (i + 1) lane step bc next part p lt h'',
        bit-bit_or tmp group p,
        bit-bit_and (shl lane (i * step)) (all_or_none (bit bc i)) p,
        bit-all_or_none (bit bc i) p lt,
      )
      | no ne ↦ ground (
        arith,
        spread_loop-bit left (i + 1) lane step bc next part p lt h'',
        bit-bit_or tmp group p,
        bit-bit_and (shl lane (i * step)) (all_or_none (bit bc i)) p,
        bit-all_or_none (bit bc i) p lt,
      )
    ])

-- For every value below `n`, the four lanes hold it just for the part that `place` gives.
unfoldable spreads : ℕ → ℕ → ℕ → (ℕ → ℕ) → Bool
spreads zero lane step place = true
spreads (suc n) lane step place =
    (ltb (place n) 4 && lanes 4 0 lane step (place n) n) && spreads n lane step place

and_parts : (a b c : Bool) → ((a && b) && c) ≡ true → (a ≡ true) × (b ≡ true) × (c ≡ true)
and_parts a b c h = ground arith

spread_loop-keeps :
    (n lane step : ℕ) (place : ℕ → ℕ)
    → spreads n lane step place ≡ true
    → (c bc p : ℕ) → p < n
    → p < 64
    → bit (bit_and c (spread_loop 4 0 lane step bc 0)) p ≡ (bit c p && bit bc (place p))
spread_loop-keeps zero lane step place h c bc p lt le = absurd (omega arith)
spread_loop-keeps (suc n) lane step place h c bc p lt le =
    let parts =
      and_parts (ltb (place n) 4) (lanes 4 0 lane step (place n) n) (spreads n lane step place)
        (unfold spreads in h) in
    elim (ℕ_discrete p n) [
      | yes e ↦
          rw (e, bit-bit_and c (spread_loop 4 0 lane step bc 0) n)
            (ground (
              arith,
              spread_loop-bit 4 0 lane step bc 0 (place n) n (omega arith) parts.1,
              parts.0,
              bit-zero n,
            ))
      | no ne ↦ spread_loop-keeps n lane step place parts.2 c bc p (omega arith) le
    ]

repeat_loop-keeps :
    (left c bc p : ℕ)
    → bc < 16
    → p < 64
    → p / 4 < left
    → bit (bit_and c (repeat_loop left 0 bc 0)) p ≡ (bit c p && bit bc (p % 4))
repeat_loop-keeps left c bc p b le lt = ground (
  arith,
  bit-bit_and c (repeat_loop left 0 bc 0) p,
  repeat_loop-bit left 0 bc 0 p b le,
  bit-zero p,
)

-- For every word of `Condition<2>` and every condition below 16, `Filter0` and `Filter1` keep a value just
-- when the condition has its last digit, and its first.
pub two_filters-keep :
    (c bc p : ℕ)
    → bc < 16
    → p < 16
    → (bit (Two.filter0 c bc) p ≡ (bit c p && bit bc (p % 4)))
      × (bit (Two.filter1 c bc) p ≡ (bit c p && bit bc (p / 4)))
unfolding spreads lanes bit shl Two.filter0 Two.filter1
two_filters-keep c bc p b lt = (
  repeat_loop-keeps 4 c bc p b (omega arith) (omega arith),
  spread_loop-keeps 16 0x000f 4 (λ v. v / 4) refl c bc p lt (omega arith),
)

-- For every word of `Condition<3>` and every condition below 16, `Filter0`, `Filter1` and `Filter2` keep a value
-- just when the condition has its last digit, its second, and its first.
pub three_filters-keep :
    (c bc p : ℕ)
    → bc < 16
    → p < 64
    → (bit (Three.filter0 c bc) p ≡ (bit c p && bit bc (p % 4)))
      × (bit (Three.filter1 c bc) p ≡ (bit c p && bit bc (p / 4 % 4)))
      × (bit (Three.filter2 c bc) p ≡ (bit c p && bit bc (p / 16)))
unfolding spreads lanes bit shl Three.filter0 Three.filter1 Three.filter2
three_filters-keep c bc p b lt = (
  repeat_loop-keeps 16 c bc p b lt (omega arith),
  spread_loop-keeps 64 0x000f000f000f000f 4 (λ v. v / 4 % 4) refl c bc p lt lt,
  spread_loop-keeps 64 0x000000000000ffff 16 (λ v. v / 16) refl c bc p lt lt,
)
