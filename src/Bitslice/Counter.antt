-- ===== src/Bitslice/Counter.antt =====
-- `Index` of src/index.h as a counter with a base for each digit: `rank` is the number that the indices stand for.
use nldtool.Base.{
  ℕ, zero, suc, ◌+◌, ◌-◌, ◌*◌, ◌<◌, ◌≡◌, refl, arith, ap, ap₂, sym, ◌∙◌, Bool, true, false, List,
  [], ◌∷◌, ◌==◌, ◌&&◌, ltb, ◌⊎◌, inl, inr, tri, replicate,
}
use native.Mathlib.Decide.{ℕ_discrete}
use nldtool.Bitslice.{settle, increment}

-- Each index is below its size, and there is one for each size.
unfoldable pub in_range : List ℕ → List ℕ → Bool
in_range [] [] = true
in_range [] (s ∷ ss) = false
in_range (v ∷ vs) [] = false
in_range (v ∷ vs) (s ∷ ss) = ltb v s && in_range vs ss

unfoldable pub rank : List ℕ → List ℕ → ℕ
rank [] ss = 0
rank (v ∷ vs) [] = 0
rank (v ∷ vs) (s ∷ ss) = v + s * rank vs ss

unfoldable pub product : List ℕ → ℕ
product [] = 1
product (s ∷ ss) = s * product ss

-- What `Increment` leaves: the next choice, or the word that there is none.
abbrev pub Stepped : List ℕ → List ℕ → List ℕ × Bool → Type 0
Stepped vs ss next =
    ((next.1 ≡ true) × (in_range next.0 ss ≡ true) × (rank next.0 ss ≡ rank vs ss + 1))
    ⊎ ((next.1 ≡ false) × (rank vs ss + 1 ≡ product ss))

settle-in_range : (vs ss : List ℕ) → in_range vs ss ≡ true → settle vs ss ≡ (vs, true)
unfolding in_range settle
settle-in_range [] ss h = refl
settle-in_range (v ∷ vs) [] h = refl
settle-in_range (v ∷ []) (s ∷ ss) h = let differ : (v == s) ≡ false = ground arith in rw differ refl
settle-in_range (v ∷ w ∷ vs) (s ∷ ss) h =
    let differ : (v == s) ≡ false = ground arith in
    rw (differ, settle-in_range (w ∷ vs) ss (ground arith)) refl

carry_up :
    (v w : ℕ) (vs : List ℕ) (s : ℕ) (ss : List ℕ) (next : List ℕ × Bool)
    → v + 1 ≡ s
    → Stepped (w ∷ vs) ss next
    → Stepped (v ∷ w ∷ vs) (s ∷ ss) (0 ∷ next.0, next.1)
unfolding in_range rank product
carry_up v w vs s ss next e (inl (t, r, k)) =
    let r0 = rank (w ∷ vs) ss in
    let up : s * rank next.0 ss ≡ s * r0 + s = ap (λ x. s * x) k ∙ omega arith in
    inl (t, ground arith, omega (arith, up))
carry_up v w vs s ss next e (inr (t, k)) =
    let r0 = rank (w ∷ vs) ss in
    let up : s * product ss ≡ s * r0 + s = ap (λ x. s * x) (sym k) ∙ omega arith in
    inr (t, omega (arith, up))

-- From indices in range, `Increment` goes to the next rank, or the rank was the last one.
pub increment-Stepped :
    (v : ℕ) (vs ss : List ℕ)
    → in_range (v ∷ vs) ss ≡ true
    → Stepped (v ∷ vs) ss (increment (v ∷ vs) ss)
unfolding in_range rank product increment settle
increment-Stepped v vs [] h = absurd (ground (arith, h))
increment-Stepped v [] (s ∷ (t ∷ ss)) h = absurd (ground (arith, h))
increment-Stepped v [] (s ∷ []) h = elim (ℕ_discrete (v + 1) s) [
  | yes e ↦ let same : (v + 1 == s) ≡ true = ground arith in rw same (inr (refl, omega arith))
  | no ne ↦
      let differ : (v + 1 == s) ≡ false = ground arith in
      rw differ (inl (refl, ground arith, omega arith))
]
increment-Stepped v (w ∷ vs) (s ∷ ss) h = elim (ℕ_discrete (v + 1) s) [
  | yes e ↦
      let same : (v + 1 == s) ≡ true = ground arith in
      rw same (
        carry_up v w vs s ss (settle ((w + 1) ∷ vs) ss) e
          (increment-Stepped w vs ss (ground (arith, h))))
  | no ne ↦
      let differ : (v + 1 == s) ≡ false = ground arith in
      rw (differ, settle-in_range (w ∷ vs) ss (ground (arith, h)))
        (inl (refl, ground (arith, h), omega arith))
]

high_digit : (s v w r q : ℕ) → v < s → w < s → v + s * r ≡ w + s * q → ¬ (r < q)
high_digit s v w r q hv hw e lt =
    let gap : s * q ≡ s * r + s + s * (q - (r + 1)) =
      ap (λ x. s * x) (let split : q ≡ r + 1 + (q - (r + 1)) = omega arith in split)
      ∙ omega arith in
    omega (arith, gap, e)

pub rank-injective :
    (vs ws ss : List ℕ)
    → in_range vs ss ≡ true
    → in_range ws ss ≡ true
    → rank vs ss ≡ rank ws ss
    → vs ≡ ws
unfolding in_range rank
rank-injective [] [] ss hv hw e = refl
rank-injective [] (w ∷ ws) [] hv hw e = absurd (ground (arith, hw))
rank-injective [] (w ∷ ws) (s ∷ ss) hv hw e = absurd (ground (arith, hv))
rank-injective (v ∷ vs) ws [] hv hw e = absurd (ground (arith, hv))
rank-injective (v ∷ vs) [] (s ∷ ss) hv hw e = absurd (ground (arith, hw))
rank-injective (v ∷ vs) (w ∷ ws) (s ∷ ss) hv hw e =
    let high : rank vs ss ≡ rank ws ss = elim (tri (rank vs ss) (rank ws ss)) [
      | inl lt ↦ absurd (
          high_digit s v w (rank vs ss) (rank ws ss) (ground (arith, hv)) (ground (arith, hw)) e lt)
      | inr (inl same) ↦ same
      | inr (inr gt) ↦ absurd (
          high_digit s w v (rank ws ss) (rank vs ss) (ground (arith, hw)) (ground (arith, hv))
            (sym e) gt)
    ] in
    let low : v ≡ w = omega (arith, e, ap (λ x. s * x) high) in
    ap₂ (λ x xs. x ∷ xs) low
      (rank-injective vs ws ss (ground (arith, hv)) (ground (arith, hw)) high)

pub rank-lt : (vs ss : List ℕ) → in_range vs ss ≡ true → rank vs ss < product ss
unfolding in_range rank product
rank-lt [] [] h = omega arith
rank-lt [] (s ∷ ss) h = absurd (ground (arith, h))
rank-lt (v ∷ vs) [] h = absurd (ground (arith, h))
rank-lt (v ∷ vs) (s ∷ ss) h =
    let below = rank-lt vs ss (ground (arith, h)) in
    let lt : v < s = ground (arith, h) in
    let r = rank vs ss in
    let gap : s * product ss ≡ s * r + s + s * (product ss - (r + 1)) =
      ap (λ x. s * x)
        (let split : product ss ≡ r + 1 + (product ss - (r + 1)) = omega arith in split)
      ∙ omega arith in
    omega (arith, gap, lt)

pub rank-zeros : (n : ℕ) (ss : List ℕ) → rank (replicate n 0) ss ≡ 0
unfolding rank
rank-zeros zero ss = refl
rank-zeros (suc n) [] = refl
rank-zeros (suc n) (s ∷ ss) = omega (arith, ap (λ x. s * x) (rank-zeros n ss))
