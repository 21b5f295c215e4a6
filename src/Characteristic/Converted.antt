-- ===== src/Characteristic/Converted.antt =====
-- The conversions to `Condition<1>`, `Condition<2>` and `Condition<3>` of src/condition.h keep a condition that a
-- parameter of so many bits has.
use nldtool.Base.{
  ℕ, zero, suc, ◌%◌, ◌^◌, ◌≤◌, ◌<◌, ◌≡◌, refl, arith, ap, ◌∙◌, subst, false, leb, Bool-cases, inl,
  inr, bit_and, List,
}
use nldtool.Bits.{bit, IsWord, bit-bit_and, bit_and-lt, word_ext}
use nldtool.Utils.{mask}
use nldtool.Utils.Windows.{bit-mask}
use nldtool.WordContainer.Fields.{mask-IsWord, get-IsWord}
use nldtool.Bitslice.{BitFunction, params, get_condition}
use nldtool.Bitslice.Conditions.{width, IsBitFunction, bit-get_condition_ge}
use nldtool.Characteristic.{converted}

masked :
    (n x : ℕ) → n ≤ 64 → IsWord x → ((b : ℕ) → n ≤ b → bit x b ≡ false) → bit_and x (mask n) ≡ x
masked n x few word high =
    word_ext (bit_and x (mask n)) x (bit_and-lt 64 x (mask n) (mask-IsWord n)) word (λ i lt.
      elim (Bool-cases (leb n i)) [
        | inl t ↦ ground (arith, bit-bit_and x (mask n) i, high i (ground (arith, t)))
        | inr e ↦ ground (arith, bit-bit_and x (mask n) i, bit-mask n i few, e)
      ])

converted-same :
    (n x : ℕ) → n ≤ 3 → IsWord x → ((b : ℕ) → width n ≤ b → bit x b ≡ false) → converted n x ≡ x
unfolding converted mask nldtool.Bits.shr nldtool.Bits.not64
converted-same zero x few word high = refl
converted-same (suc zero) x few word high =
    let whole : bit_and x 0xf ≡ x = masked 4 x (omega arith) word high in
    let small : x < 2 ^ 4 = subst (λ y. y < 2 ^ 4) whole (bit_and-lt 4 x 0xf (omega arith)) in
    let cut : x % 256 ≡ x = omega (arith, small) in ap (λ y. bit_and y 0xf) cut ∙ whole
converted-same (suc (suc zero)) x few word high =
    let whole : bit_and x 0xffff ≡ x = masked 16 x (omega arith) word high in
    let small : x < 2 ^ 16 = subst (λ y. y < 2 ^ 16) whole (bit_and-lt 16 x 0xffff (omega arith)) in
    let cut : x % 65536 ≡ x = omega (arith, small) in ap (λ y. bit_and y 0xffff) cut ∙ whole
converted-same (suc (suc (suc zero))) x few word high = refl
converted-same (suc (suc (suc (suc n)))) x few word high = absurd (omega arith)

-- What `GetCondition` gives of a parameter of `n` bits is a `Condition<n>`.
pub converted-get_condition :
    (f : BitFunction) (ok : IsBitFunction f) (d : List ℕ) (i n : ℕ)
    → i < params f
    → n ≡ f.bitsize i
    → converted n (get_condition f d i) ≡ get_condition f d i
unfolding get_condition
converted-get_condition f ok d i n hi e =
    converted-same n (get_condition f d i) (omega (arith, e, ok.bits_to i)) (get-IsWord d _ _)
      (λ b wide. bit-get_condition_ge f ok d i b hi (subst (λ m. width m ≤ b) e wide))
