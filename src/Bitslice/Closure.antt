-- ===== src/Bitslice/Closure.antt =====
-- `Loop<Propagate<F>>` of src/bitslice.h as an operation on conditions: it only removes pairs, and a second run
-- removes no more.
use nldtool.Base.{
  ℕ, zero, suc, ◌+◌, ◌-◌, ◌<◌, ◌≡◌, refl, arith, ap, sym, ◌∙◌, true, List, [], ◌∷◌, ◌++◌,
  Bool-cases, length, length-append, get_or, inl, inr,
}
use nldtool.Bits.{bit, word_ext, IsWord}
use nldtool.Pair.{Pair}
use nldtool.WordContainer.Fields.{get-IsWord}
use nldtool.Bitslice.{
  BitFunction, params, get_condition, pair_code, no_pair, propagate, condition_index,
}
use nldtool.Bitslice.Conditions.{IsBitFunction, fits}
use nldtool.Bitslice.Choices.{admits}
use nldtool.Bitslice.Filled.{admits-fits}
use nldtool.Bitslice.Optimal.{propagate-optimal}

-- What is admitted has its place in the condition.
admits-at :
    (f : BitFunction) (d : List ℕ) (ps : List Pair) (i k : ℕ)
    → k < length ps
    → admits f d ps i ≡ true
    → bit (get_condition f d (i + k)) (pair_code f (i + k) (get_or ps k no_pair)) ≡ true
unfolding admits
admits-at f d [] i k lt h = absurd (omega arith)
admits-at f d (p ∷ ps) i zero lt h =
    let same : i + 0 ≡ i = omega arith in rw same (ground (arith, h))
admits-at f d (p ∷ ps) i (suc k) lt h =
    let next : i + suc k ≡ i + 1 + k = omega arith in
    rw next (admits-at f d ps (i + 1) k (omega arith) (ground (arith, h)))

-- Pairs that fit are admitted if each place of theirs is there.
at-admits :
    (f : BitFunction) (d : List ℕ) (ps : List Pair) (i : ℕ)
    → fits f ps i ≡ true
    → ((k : ℕ)
        → k < length ps
        → bit (get_condition f d (i + k)) (pair_code f (i + k) (get_or ps k no_pair)) ≡ true)
    → admits f d ps i ≡ true
unfolding admits fits
at-admits f d [] i fit h = refl
at-admits f d (p ∷ ps) i fit h =
    let same : i + 0 ≡ i = omega arith in
    let here : bit (get_condition f d i) (pair_code f i p) ≡ true =
      let h0 = h 0 (omega arith) in rw same at h0 in
    let rest = at-admits f d ps (i + 1) (ground (arith, fit)) (λ k lt.
      let next : i + suc k ≡ i + 1 + k = omega arith in
      let hk = h (suc k) (omega arith) in rw next at hk) in
    ground (arith, fit, here, rest)

pub get_condition-IsWord : (f : BitFunction) (d : List ℕ) (i : ℕ) → IsWord (get_condition f d i)
unfolding get_condition
get_condition-IsWord f d i = get-IsWord d (condition_index f i) (condition_index f (i + 1) - 1)

module _ (f : BitFunction) (ok : IsBitFunction f) (d : List ℕ) where
  total : (xs : List Pair) → length xs ≡ f.inputs → length (xs ++ f.apply xs) ≡ params f
  total xs all = omega (arith, length-append xs (f.apply xs), all, ok.outputs_all xs all)

  -- A pair of values that is left possible was possible.
  pub propagate-restricts :
      (j b : ℕ)
      → j < params f
      → bit (get_condition f (propagate f d) j) b ≡ true
      → bit (get_condition f d j) b ≡ true
  propagate-restricts j b hj h =
      let (xs, all, good, place) = (propagate-optimal f ok d j b hj).0 h in
      let at = admits-at f d (xs ++ f.apply xs) 0 j (omega (arith, total xs all)) good in
      let from : 0 + j ≡ j = omega arith in let at' = rw (from, place) at at in at'

  -- Inputs that are admitted stay admitted.
  kept :
      (xs : List Pair)
      → length xs ≡ f.inputs
      → admits f d (xs ++ f.apply xs) 0 ≡ true
      → admits f (propagate f d) (xs ++ f.apply xs) 0 ≡ true
  kept xs all good =
      at-admits f (propagate f d) (xs ++ f.apply xs) 0 (admits-fits f d (xs ++ f.apply xs) 0 good)
        (λ k lt.
          (propagate-optimal f ok d (0 + k)
              (pair_code f (0 + k) (get_or (xs ++ f.apply xs) k no_pair))
              (omega (arith, total xs all))).1
            (xs, all, good, let from : 0 + k ≡ k = omega arith in rw from refl))

module _ (f : BitFunction) (ok : IsBitFunction f) (d : List ℕ) (j : ℕ) (hj : j < params f) where
  again :
      (b : ℕ)
      → bit (get_condition f (propagate f d) j) b ≡ true
      → bit (get_condition f (propagate f (propagate f d)) j) b ≡ true
  again b h =
      let (xs, all, good, place) = (propagate-optimal f ok d j b hj).0 h in
      (propagate-optimal f ok (propagate f d) j b hj).1 (xs, all, kept f ok d xs all good, place)

  -- For a function that meets IsBitFunction, propagating a second time changes no condition.
  pub propagate-idempotent :
      get_condition f (propagate f (propagate f d)) j ≡ get_condition f (propagate f d) j
  propagate-idempotent =
      word_ext (get_condition f (propagate f (propagate f d)) j) (get_condition f (propagate f d) j)
        (get_condition-IsWord f (propagate f (propagate f d)) j)
        (get_condition-IsWord f (propagate f d) j)
        (λ b below. elim (Bool-cases (bit (get_condition f (propagate f d) j) b)) [
          | inl t ↦ again b t ∙ sym t
          | inr e ↦ elim (Bool-cases (bit (get_condition f (propagate f (propagate f d)) j) b)) [
            | inl t' ↦
                absurd (ground (arith, e, propagate-restricts f ok (propagate f d) j b hj t'))
            | inr e' ↦ e' ∙ sym e
          ]
        ])

-- Conditions that agree at each parameter.
abbrev pub Agree : BitFunction → List ℕ → List ℕ → Type 0
Agree f d e = (k : ℕ) → k < params f → get_condition f d k ≡ get_condition f e k

module _ (f : BitFunction) (ok : IsBitFunction f) where
  half-Agree :
      (d e : List ℕ)
      → Agree f d e
      → (j b : ℕ) → j < params f
      → bit (get_condition f (propagate f d) j) b ≡ true
      → bit (get_condition f (propagate f e) j) b ≡ true
  half-Agree d e same j b hj h =
      let (xs, all, good, place) = (propagate-optimal f ok d j b hj).0 h in
      let val = xs ++ f.apply xs in
      let there : admits f e val 0 ≡ true =
        at-admits f e val 0 (admits-fits f d val 0 good) (λ k lt.
          ap (λ c. bit c (pair_code f (0 + k) (get_or val k no_pair)))
            (sym (same (0 + k) (omega (arith, total f ok d xs all))))
          ∙ admits-at f d val 0 k lt good) in
      (propagate-optimal f ok e j b hj).1 (xs, all, there, place)

  -- `Propagate` depends on the conditions of the parameters only.
  pub propagate-Agree : (d e : List ℕ) → Agree f d e → Agree f (propagate f d) (propagate f e)
  propagate-Agree d e same j hj =
      let back : Agree f e d = λ k hk. sym (same k hk) in
      word_ext (get_condition f (propagate f d) j) (get_condition f (propagate f e) j)
        (get_condition-IsWord f (propagate f d) j) (get_condition-IsWord f (propagate f e) j)
        (λ b below. elim (Bool-cases (bit (get_condition f (propagate f d) j) b)) [
          | inl t ↦ t ∙ sym (half-Agree d e same j b hj t)
          | inr t ↦ elim (Bool-cases (bit (get_condition f (propagate f e) j) b)) [
            | inl u ↦ absurd (ground (arith, t, half-Agree e d back j b hj u))
            | inr u ↦ t ∙ sym u
          ]
        ])
