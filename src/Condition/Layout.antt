-- ===== src/Condition/Layout.antt =====
-- `Filter0`, `Filter1` and `Filter2` of src/condition.h against the layout in which `GetBit0` and its kin read a word
-- of values.
use nldtool.Base.{
  ℕ, zero, suc, ◌*◌, ◌/◌, ◌%◌, ◌<◌, ◌≤◌, ◌≡◌, ◌↔◌, refl, arith, ap, sym, ◌∙◌, true, ◌&&◌,
}
use nldtool.Bits.{bit, not64, bit-not64, bit-zero}
use nldtool.Condition.Two
use nldtool.Condition.Three
use nldtool.Condition.Project.{pair_at}
use nldtool.Condition.Filter.{two_filters-keep, three_filters-keep}

-- A filter that keeps the values whose part `digit` is in the condition keeps those whose part `place` is in it just
-- when the condition has either both or neither part of each value.
module _ (n bc : ℕ) (few : n ≤ 64) (filter : ℕ → ℕ) (digit place : ℕ → ℕ)
    (keeps : (c p : ℕ) → p < n → bit (filter c) p ≡ (bit c p && bit bc (digit p))) where
  abbrev Filters : Type 0
  Filters = (c p : ℕ) → p < n → bit (filter c) p ≡ (bit c p && bit bc (place p))

  abbrev Agree : Type 0
  Agree = (p : ℕ) → p < n → bit bc (digit p) ≡ bit bc (place p)

  filters-agree : Filters ↔ Agree
  filters-agree = (
    λ h p lt.
        let full : bit (not64 0) p ≡ true =
          rw (bit-not64 0 p (omega arith) (omega arith), bit-zero p) refl in
        ground (arith, keeps (not64 0) p lt, h (not64 0) p lt, full),
    λ agree c p lt. keeps c p lt ∙ ap (λ b. bit c p && b) (agree p lt),
  )

-- Parts that are the same up to the higher, or up to the lower, bit.
same_low :
    (bc a b : ℕ)
    → a < 4
    → b < 4
    → a % 2 ≡ b % 2
    → bit bc 0 ≡ bit bc 2
    → bit bc 1 ≡ bit bc 3
    → bit bc a ≡ bit bc b
same_low bc a b ha hb e h k = low a ha ∙ ap (bit bc) e ∙ sym (low b hb)
  where
    low : (x : ℕ) → x < 4 → bit bc x ≡ bit bc (x % 2)
    low zero lt = refl
    low (suc zero) lt = refl
    low (suc (suc zero)) lt = sym h
    low (suc (suc (suc zero))) lt = sym k
    low (suc (suc (suc (suc x)))) lt = absurd (omega arith)

same_high :
    (bc a b : ℕ)
    → a < 4
    → b < 4
    → a / 2 ≡ b / 2
    → bit bc 0 ≡ bit bc 1
    → bit bc 2 ≡ bit bc 3
    → bit bc a ≡ bit bc b
same_high bc a b ha hb e h k = high a ha ∙ ap (λ x. bit bc (x * 2)) e ∙ sym (high b hb)
  where
    high : (x : ℕ) → x < 4 → bit bc x ≡ bit bc (x / 2 * 2)
    high zero lt = refl
    high (suc zero) lt = sym h
    high (suc (suc zero)) lt = refl
    high (suc (suc (suc zero))) lt = sym k
    high (suc (suc (suc (suc x)))) lt = absurd (omega arith)

-- `Filter0` of `Condition<2>` keeps, of every word, just the values whose bit 0 in the layout of `GetBit0` is in the
-- condition, exactly for conditions that have 0 just when they have n and u just when they have 1; and `Filter1` those
-- whose bit 1 is, exactly for conditions that have 0 just when they have u and n just when they have 1. Here a
-- condition is a number below 16.
pub two_filters-layout :
    (bc : ℕ)
    → bc < 16
    → (((c p : ℕ) → p < 16 → bit (Two.filter0 c bc) p ≡ (bit c p && bit bc (pair_at 2 0 p)))
        ↔ ((bit bc 0 ≡ bit bc 2) × (bit bc 1 ≡ bit bc 3)))
      × (((c p : ℕ) → p < 16 → bit (Two.filter1 c bc) p ≡ (bit c p && bit bc (pair_at 2 1 p)))
          ↔ ((bit bc 0 ≡ bit bc 1) × (bit bc 2 ≡ bit bc 3)))
two_filters-layout bc lt =
    let zeroth =
      filters-agree 16 bc (omega arith) (λ c. Two.filter0 c bc) (λ p. p % 4) (pair_at 2 0)
        (λ c p below. (two_filters-keep c bc p lt below).0) in
    let first =
      filters-agree 16 bc (omega arith) (λ c. Two.filter1 c bc) (λ p. p / 4) (pair_at 2 1)
        (λ c p below. (two_filters-keep c bc p lt below).1) in
    (
      (
        λ h. (sym (zeroth.0 h 2 (omega arith)), sym (zeroth.0 h 3 (omega arith))),
        λ (h, k). zeroth.1 (λ p below.
            same_low bc (p % 4) (pair_at 2 0 p) (omega arith) (omega arith) (omega arith) h k),
      ),
      (
        λ h. (sym (first.0 h 4 (omega arith)), sym (first.0 h 12 (omega arith))),
        λ (h, k). first.1 (λ p below.
            same_high bc (p / 4) (pair_at 2 1 p) (omega arith) (omega arith) (omega arith) h k),
      ),
    )

same_all :
    (bc a : ℕ)
    → a < 4
    → bit bc 0 ≡ bit bc 1
    → bit bc 0 ≡ bit bc 2
    → bit bc 0 ≡ bit bc 3
    → bit bc a ≡ bit bc 0
same_all bc zero ha h k l = refl
same_all bc (suc zero) ha h k l = sym h
same_all bc (suc (suc zero)) ha h k l = sym k
same_all bc (suc (suc (suc zero))) ha h k l = sym l
same_all bc (suc (suc (suc (suc x)))) ha h k l = absurd (omega arith)

-- `Filter0` of `Condition<3>` keeps, of every word, just the values whose bit 0 in the layout of `GetBit0` is in the
-- condition, exactly for conditions that have 0 just when they have n and u just when they have 1; `Filter1` those whose
-- bit 1 is, exactly for the condition that has all four and the one that has none; and `Filter2` those whose bit 2 is,
-- exactly for conditions that have 0 just when they have u and n just when they have 1. Here a condition is a number
-- below 16.
pub three_filters-layout :
    (bc : ℕ)
    → bc < 16
    → (((c p : ℕ) → p < 64 → bit (Three.filter0 c bc) p ≡ (bit c p && bit bc (pair_at 3 0 p)))
        ↔ ((bit bc 0 ≡ bit bc 2) × (bit bc 1 ≡ bit bc 3)))
      × (((c p : ℕ) → p < 64 → bit (Three.filter1 c bc) p ≡ (bit c p && bit bc (pair_at 3 1 p)))
          ↔ ((bit bc 0 ≡ bit bc 1) × (bit bc 0 ≡ bit bc 2) × (bit bc 0 ≡ bit bc 3)))
      × (((c p : ℕ) → p < 64 → bit (Three.filter2 c bc) p ≡ (bit c p && bit bc (pair_at 3 2 p)))
          ↔ ((bit bc 0 ≡ bit bc 1) × (bit bc 2 ≡ bit bc 3)))
three_filters-layout bc lt =
    let zeroth =
      filters-agree 64 bc (omega arith) (λ c. Three.filter0 c bc) (λ p. p % 4) (pair_at 3 0)
        (λ c p below. (three_filters-keep c bc p lt below).0) in
    let first =
      filters-agree 64 bc (omega arith) (λ c. Three.filter1 c bc) (λ p. p / 4 % 4) (pair_at 3 1)
        (λ c p below. (three_filters-keep c bc p lt below).1) in
    let second =
      filters-agree 64 bc (omega arith) (λ c. Three.filter2 c bc) (λ p. p / 16) (pair_at 3 2)
        (λ c p below. (three_filters-keep c bc p lt below).2) in
    (
      (
        λ h. (sym (zeroth.0 h 2 (omega arith)), sym (zeroth.0 h 3 (omega arith))),
        λ (h, k). zeroth.1 (λ p below.
            same_low bc (p % 4) (pair_at 3 0 p) (omega arith) (omega arith) (omega arith) h k),
      ),
      (
        λ h. (
          sym (first.0 h 4 (omega arith)),
          sym (first.0 h 8 (omega arith)),
          sym (first.0 h 12 (omega arith)),
        ),
        λ (h, k, l). first.1 (λ p below.
            same_all bc (p / 4 % 4) (omega arith) h k l
            ∙ sym (same_all bc (pair_at 3 1 p) (omega arith) h k l)),
      ),
      (
        λ h. (sym (second.0 h 16 (omega arith)), sym (second.0 h 48 (omega arith))),
        λ (h, k). second.1 (λ p below.
            same_high bc (p / 16) (pair_at 3 2 p) (omega arith) (omega arith) (omega arith) h k),
      ),
    )
