-- ===== src/Characteristic/Steps.antt =====
-- `Update(characteristic, pos)` of src/bitslice_step.h: what a step reads, and what it leaves.
use nldtool.Base.{
  ℕ, zero, suc, ◌+◌, ◌≤◌, ◌<◌, ◌≡◌, ◌⊎◌, refl, arith, ap, sym, ◌∙◌, subst, true, false, List, ◌==◌,
  ◌&&◌, leb, ltb, if◌then◌else◌, Bool-cases, length, length-replicate, inl, inr,
}
use native.Mathlib.Decide.{ℕ_discrete}
use nldtool.Bits.{bit, word_ext}
use nldtool.Bitslice.{
  BitFunction, params, num_words, no_conditions, get_condition, set_condition, propagate,
}
use nldtool.Bitslice.Conditions.{IsBitFunction, bit-get_set, bit-get_condition_ge, width}
use nldtool.Bitslice.Collect.{length-set_condition}
use nldtool.Bitslice.Closure.{get_condition-IsWord, Agree, propagate-Agree, propagate-idempotent}
use nldtool.Characteristic.{Characteristic, proxy_get, BitsliceStep, Crypto, input_from}

-- What holds for each number below a bound, or else `B`.
pub all_below-or :
    (A : ℕ → Type 0) (B : Type 0) (m : ℕ)
    → ((i : ℕ) → i < m → A i ⊎ B)
    → ((i : ℕ) → i < m → A i) ⊎ B
all_below-or A B zero h = inl (λ i lt. absurd (omega arith))
all_below-or A B (suc m) h = elim (all_below-or A B m (λ i lt. h i (omega arith))) [
  | inr b ↦ inr b
  | inl all ↦ elim (h m (omega arith)) [
    | inr b ↦ inr b
    | inl a ↦
        inl (λ i lt. elim (ℕ_discrete i m) [
          | yes e ↦ subst A (sym e) a
          | no ne ↦ all i (omega arith)
        ])
  ]
]

module _ (crypto : Crypto) (s p : ℕ) where
  abbrev pub st : BitsliceStep
  st = crypto.get_step s

  abbrev pub f : BitFunction
  f = st.function

  -- The condition of the parameter `i`, as the step reads it.
  abbrev pub cell : ℕ → Characteristic → ℕ
  cell i c = proxy_get (crypto.proxy (st.condition_proxy i p)) c

  abbrev pub gathered : Characteristic → List ℕ
  gathered c = input_from crypto st p c (params f) 0 (no_conditions f)

  -- Propagating once more changes none of the step's conditions.
  abbrev pub Settled : Characteristic → Type 0
  Settled c = (i : ℕ) → i < params f → get_condition f (propagate f (gathered c)) i ≡ cell i c

  length-input_from :
      IsBitFunction f
      → (c : Characteristic) (left i : ℕ) (input : List ℕ)
      → length (input_from crypto st p c left i input) ≡ length input
  unfolding input_from
  length-input_from ok c zero i input = refl
  length-input_from ok c (suc left) i input =
      length-input_from ok c left (i + 1) (set_condition f input i (cell i c))
      ∙ length-set_condition f ok input i (cell i c)

  pub length-gathered : IsBitFunction f → (c : Characteristic) → length (gathered c) ≡ num_words f
  unfolding no_conditions
  length-gathered ok c =
      length-input_from ok c (params f) 0 (no_conditions f)
      ∙ length-replicate {A = ℕ} (num_words f) 0

  bit-input_from :
      IsBitFunction f
      → (c : Characteristic) (left i j b : ℕ) (input : List ℕ) → num_words f ≤ length input
      → i + left ≤ params f
      → j < params f
      → bit (get_condition f (input_from crypto st p c left i input) j) b ≡ (
          if leb i j && ltb j (i + left)
          then bit (cell j c) b && ltb b (width (f.bitsize j))
          else bit (get_condition f input j) b)
  unfolding input_from
  bit-input_from ok c zero i j b input long h hj = ground arith
  bit-input_from ok c (suc left) i j b input long h hj =
      let next = set_condition f input i (cell i c) in
      let long' : num_words f ≤ length next =
        omega (arith, length-set_condition f ok input i (cell i c)) in
      let rest = bit-input_from ok c left (i + 1) j b next long' (omega arith) hj in
      let now = bit-get_set f ok input j i (cell i c) b long hj (omega arith) in
      elim (ℕ_discrete j i) [
        | yes e ↦
            let t : (leb i j && ltb j (i + suc left)) ≡ true = ground arith in
            let u : (leb (i + 1) j && ltb j (i + 1 + left)) ≡ false = ground arith in
            let v : (j == i) ≡ true = ground arith in
            let rest' = rw u at rest in
            let now' = rw v at now in
            rw t (rest' ∙ now' ∙ ap (λ k. bit (cell k c) b && ltb b (width (f.bitsize j))) (sym e))
        | no ne ↦
            let v : (j == i) ≡ false = ground arith in
            let now' = rw v at now in
            elim (Bool-cases (leb i j && ltb j (i + suc left))) [
              | inl t ↦
                  let u : (leb (i + 1) j && ltb j (i + 1 + left)) ≡ true = ground (arith, t, ne) in
                  let rest' = rw u at rest in rw t rest'
              | inr t ↦
                  let u : (leb (i + 1) j && ltb j (i + 1 + left)) ≡ false = ground (arith, t, ne) in
                  let rest' = rw u at rest in rw t (rest' ∙ now')
            ]
      ]

  -- What the step reads are the conditions, cut to their bits.
  pub bit-gathered :
      IsBitFunction f
      → (c : Characteristic) (j b : ℕ) → j < params f
      → bit (get_condition f (gathered c) j) b ≡ (bit (cell j c) b && ltb b (width (f.bitsize j)))
  unfolding no_conditions
  bit-gathered ok c j b hj =
      let t : (leb 0 j && ltb j (0 + params f)) ≡ true = ground arith in
      let at =
        bit-input_from ok c (params f) 0 j b (no_conditions f)
          (omega (arith, length-replicate {A = ℕ} (num_words f) 0)) (omega arith) hj in
      let at' = rw t at at in at'

  pub gathered-Agree :
      IsBitFunction f
      → (c : Characteristic) (out : List ℕ)
      → ((j : ℕ) → j < params f → cell j c ≡ get_condition f out j)
      → Agree f (gathered c) out
  gathered-Agree ok c out same j hj =
      word_ext (get_condition f (gathered c) j) (get_condition f out j)
        (get_condition-IsWord f (gathered c) j) (get_condition-IsWord f out j)
        (λ b below.
          bit-gathered ok c j b hj
          ∙ ap (λ x. bit x b && ltb b (width (f.bitsize j))) (same j hj)
          ∙ ground (arith, bit-get_condition_ge f ok out j b hj))

  gathered-same :
      (c e : Characteristic) (left i : ℕ) (input : List ℕ)
      → ((j : ℕ) → j < i + left → cell j c ≡ cell j e)
      → input_from crypto st p c left i input ≡ input_from crypto st p e left i input
  unfolding input_from
  gathered-same c e zero i input same = refl
  gathered-same c e (suc left) i input same =
      ap (λ x. input_from crypto st p c left (i + 1) (set_condition f input i x))
        (same i (omega arith))
      ∙ gathered-same c e left (i + 1) (set_condition f input i (cell i e))
          (λ j lt. same j (omega arith))

  -- A step whose conditions stay as they are stays settled.
  pub Settled-kept :
      (c e : Characteristic)
      → ((j : ℕ) → j < params f → cell j c ≡ cell j e)
      → Settled c
      → Settled e
  Settled-kept c e same h i hi =
      ap (λ d. get_condition f (propagate f d) i)
        (sym
          (gathered-same c e (params f) 0 (no_conditions f) (λ j lt. same j (omega (arith, lt)))))
      ∙ h i hi
      ∙ same i hi

  -- What propagation gave is settled.
  pub propagated-Settled :
      IsBitFunction f
      → (c : Characteristic) (d : List ℕ)
      → ((j : ℕ) → j < params f → cell j c ≡ get_condition f (propagate f d) j)
      → Settled c
  propagated-Settled ok c d same i hi =
      propagate-Agree f ok (gathered c) (propagate f d) (gathered-Agree ok c (propagate f d) same) i
        hi
      ∙ propagate-idempotent f ok d i hi
      ∙ sym (same i hi)
