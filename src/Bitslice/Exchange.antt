-- ===== src/Bitslice/Exchange.antt =====
-- Exchanging two parameters of equal symmetry, in src/bitslice_data.h, exchanges what `Propagate` finds for them.
use nldtool.Base.{
  ℕ, zero, suc, ◌+◌, ◌≤◌, ◌<◌, ◌≡◌, refl, arith, ap, ap₂, sym, ◌∙◌, subst, Bool, true, false, List,
  [], ◌∷◌, ◌++◌, ◌&&◌, ◌==◌, Bool-cases, length, length-append, get_or, inl, inr, bit_or,
}
use native.Mathlib.Decide.{ℕ_discrete}
use nldtool.Bits.{bit, word_ext, shl}
use nldtool.Pair.{Pair}
use nldtool.Bitslice.{
  BitFunction, params, num_words, get_condition, set_condition, pair_code, no_pair, propagate,
}
use nldtool.Bitslice.Conditions.{IsBitFunction, fits_bits}
use nldtool.Bitslice.Choices.{admits}
use nldtool.Bitslice.Collect.{length-set_condition}
use nldtool.Bitslice.Solutions.{IsSolution}
use nldtool.Bitslice.Optimal.{Admitted, propagate-optimal}
use nldtool.Bitslice.Closure.{get_condition-IsWord}
use nldtool.Bitslice.Moved.{get-set_copied}
use nldtool.Bitslice.Sorted.{swap_places, swap_condition}
use nldtool.Bitslice.Swap.{
  exchanged, exchanged-exchanged, length-swap_places, get_or-swap_places, IsSymmetric,
}

-- `admits` at one parameter.
abbrev admits_pair : BitFunction → List ℕ → ℕ → Pair → Bool
admits_pair f d k p = fits_bits (f.bitsize k) p && bit (get_condition f d k) (pair_code f k p)

admits-pair :
    (f : BitFunction) (d : List ℕ) (ps : List Pair) (i k : ℕ)
    → k < length ps
    → admits f d ps i ≡ true
    → admits_pair f d (i + k) (get_or ps k no_pair) ≡ true
unfolding admits
admits-pair f d [] i k lt h = absurd (omega arith)
admits-pair f d (p ∷ ps) i zero lt h =
    let same : i + 0 ≡ i = omega arith in rw same (ground (arith, h))
admits-pair f d (p ∷ ps) i (suc k) lt h =
    let next : i + suc k ≡ i + 1 + k = omega arith in
    rw next (admits-pair f d ps (i + 1) k (omega arith) (ground (arith, h)))

pair-admits :
    (f : BitFunction) (d : List ℕ) (ps : List Pair) (i : ℕ)
    → ((k : ℕ) → k < length ps → admits_pair f d (i + k) (get_or ps k no_pair) ≡ true)
    → admits f d ps i ≡ true
unfolding admits
pair-admits f d [] i h = refl
pair-admits f d (p ∷ ps) i h =
    let same : i + 0 ≡ i = omega arith in
    let h0 = h 0 (omega arith) in
    let here : admits_pair f d i p ≡ true = rw same at h0 in
    let rest = pair-admits f d ps (i + 1) (λ k lt.
      let next : i + suc k ≡ i + 1 + k = omega arith in
      let hk = h (suc k) (omega arith) in rw next at hk) in
    ground (arith, here, rest)

module _ (f : BitFunction) (ok : IsBitFunction f) (even : IsSymmetric f) (i j : ℕ) (lt : i < j)
    (hj : j < params f) (alike : f.symmetry i ≡ f.symmetry j) where
  pub exchanged-lt : (k : ℕ) → k < params f → exchanged i j k < params f
  exchanged-lt k hk = ground arith

  pub bits_kept : (k : ℕ) → f.bitsize (exchanged i j k) ≡ f.bitsize k
  bits_kept k =
      let bits = even.same_bits i j lt hj alike in
      elim (ℕ_discrete k i) [
        | yes e ↦ let t : (k == i) ≡ true = ground arith in rw t (sym bits ∙ ap f.bitsize (sym e))
        | no ne ↦ elim (ℕ_discrete k j) [
          | yes e ↦
              let t : (k == i) ≡ false = ground arith in
              let u : (k == j) ≡ true = ground arith in rw (t, u) (bits ∙ ap f.bitsize (sym e))
          | no ne' ↦
              let t : (k == i) ≡ false = ground arith in
              let u : (k == j) ≡ false = ground arith in rw (t, u) refl
        ]
      ]

  -- Conditions that are those of `d` with the two exchanged.
  abbrev pub Exchanged : List ℕ → List ℕ → Type 0
  Exchanged d e = (k : ℕ) → k < params f → get_condition f d k ≡ get_condition f e (exchanged i j k)

  pub Exchanged-back : (d e : List ℕ) → Exchanged d e → Exchanged e d
  Exchanged-back d e h k hk =
      sym (
        h (exchanged i j k) (exchanged-lt k hk)
        ∙ ap (get_condition f e) (exchanged-exchanged i j k))

  pair_test : ℕ → ℕ → Pair → Bool
  pair_test n cond p = fits_bits n p && bit cond (bit_or (shl p.second n) p.first)

  pair_kept :
      (d e : List ℕ)
      → Exchanged d e
      → (m : ℕ) (p : Pair) → m < params f
      → admits_pair f d (exchanged i j m) p ≡ true
      → admits_pair f e m p ≡ true
  unfolding pair_test
  pair_kept d e h m p hm t =
      sym (
        ap₂ (λ n c. pair_test n c p) (bits_kept m)
          (h (exchanged i j m) (exchanged-lt m hm)
            ∙ ap (get_condition f e) (exchanged-exchanged i j m)))
      ∙ t

  -- A solution with the two pairs exchanged is one of the conditions exchanged.
  pub IsSolution-Exchanged :
      (d e : List ℕ)
      → Exchanged d e
      → (xs : List Pair) → IsSolution f d xs
      → (ys : List Pair) × IsSolution f e ys
        × ((k : ℕ)
            → get_or (ys ++ f.apply ys) k no_pair
              ≡ get_or (xs ++ f.apply xs) (exchanged i j k) no_pair)
  IsSolution-Exchanged d e h xs (all, good) =
      let zs = xs ++ f.apply xs in
      let total : length zs ≡ params f =
        omega (arith, length-append xs (f.apply xs), all, ok.outputs_all xs all) in
      let (ys, all', kept) = even.table_kept i j xs lt hj alike all in
      let moved = get_or-swap_places no_pair zs i j (omega (arith, total)) (omega (arith, total)) in
      let long = length-swap_places no_pair zs i j (omega (arith, total)) (omega (arith, total)) in
      let fine = λ (m : ℕ) (hm : m < length (swap_places no_pair zs i j)).
        let hm' : m < params f = omega (arith, hm, long, total) in
        let old =
          admits-pair f d zs 0 (exchanged i j m) (omega (arith, exchanged-lt m hm', total)) good in
        let from : 0 + exchanged i j m ≡ exchanged i j m = omega arith in
        let from' : 0 + m ≡ m = omega arith in
        let old' = rw from at old in
        subst (λ q. admits_pair f e q (get_or (swap_places no_pair zs i j) m no_pair) ≡ true)
          (sym from')
          (subst (λ q. admits_pair f e m q ≡ true) (sym (moved m))
            (pair_kept d e h m (get_or zs (exchanged i j m) no_pair) hm' old')) in
      let all_fine = pair-admits f e (swap_places no_pair zs i j) 0 fine in
      (
        ys,
        (all', subst (λ q. admits f e q 0 ≡ true) kept all_fine),
        λ k. ap (λ q. get_or q k no_pair) (sym kept) ∙ moved k,
      )

  Admitted-Exchanged :
      (d e : List ℕ)
      → Exchanged d e
      → (k b : ℕ) (hk : k < params f) → Admitted f ok d k b hk
      → Admitted f ok e (exchanged i j k) b (exchanged-lt k hk)
  Admitted-Exchanged d e h k b hk (xs, all, good, place) =
      let zs = xs ++ f.apply xs in
      let (ys, solution, moved) = IsSolution-Exchanged d e h xs (all, good) in
      let there : get_or (ys ++ f.apply ys) (exchanged i j k) no_pair ≡ get_or zs k no_pair =
        moved (exchanged i j k) ∙ ap (λ q. get_or zs q no_pair) (exchanged-exchanged i j k) in
      (
        ys,
        solution.0,
        solution.1,
        ap₂ (λ n (p : Pair). bit_or (shl p.second n) p.first) (bits_kept k) there ∙ place,
      )

  -- What `Propagate` leaves at a parameter, it leaves at the other one for the conditions exchanged.
  half :
      (d e : List ℕ)
      → Exchanged d e
      → (k b : ℕ) → k < params f
      → bit (get_condition f (propagate f d) k) b ≡ true
      → bit (get_condition f (propagate f e) (exchanged i j k)) b ≡ true
  half d e h k b hk t =
      (propagate-optimal f ok e (exchanged i j k) b (exchanged-lt k hk)).1
        (Admitted-Exchanged d e h k b hk ((propagate-optimal f ok d k b hk).0 t))

  pub propagate-Exchanged :
      (d e : List ℕ)
      → Exchanged d e
      → (k : ℕ) → k < params f
      → get_condition f (propagate f d) k ≡ get_condition f (propagate f e) (exchanged i j k)
  propagate-Exchanged d e h k hk =
      let x = get_condition f (propagate f d) k in
      let y = get_condition f (propagate f e) (exchanged i j k) in
      word_ext x y (get_condition-IsWord f (propagate f d) k)
        (get_condition-IsWord f (propagate f e) (exchanged i j k))
        (λ b below. elim (Bool-cases (bit x b)) [
          | inl t ↦ t ∙ sym (half d e h k b hk t)
          | inr t ↦ elim (Bool-cases (bit y b)) [
            | inl u ↦
                let back =
                  half e d (Exchanged-back d e h) (exchanged i j k) b (exchanged-lt k hk) u in
                let back' : bit x b ≡ true =
                  ap (λ q. bit (get_condition f (propagate f d) q) b)
                    (sym (exchanged-exchanged i j k))
                  ∙ back in
                absurd (ground (arith, t, back'))
            | inr u ↦ t ∙ sym u
          ]
        ])

  -- `SwapCondition` exchanges the two conditions.
  pub swap_condition-Exchanged :
      (d : List ℕ) → num_words f ≤ length d → Exchanged (swap_condition f d i j) d
  unfolding swap_condition
  swap_condition-Exchanged d long k hk =
      let bits = even.same_bits i j lt hj alike in
      let hi : i < params f = omega arith in
      let one = set_condition f d i (get_condition f d j) in
      let long' : num_words f ≤ length one =
        omega (arith, length-set_condition f ok d i (get_condition f d j)) in
      let outer = get-set_copied f ok one d j i long' hj hi (sym bits) k hk in
      let inner = get-set_copied f ok d d i j long hi hj bits k hk in
      elim (ℕ_discrete k i) [
        | yes e ↦
            let t : (k == i) ≡ true = ground arith in
            let u : (k == j) ≡ false = ground arith in rw t (outer ∙ rw u (inner ∙ rw t refl))
        | no ne ↦
            let t : (k == i) ≡ false = ground arith in
            elim (Bool-cases (k == j)) [
              | inl u ↦ rw (t, u) (outer ∙ rw u refl)
              | inr u ↦ rw (t, u) (outer ∙ rw u (inner ∙ rw t refl))
            ]
      ]
