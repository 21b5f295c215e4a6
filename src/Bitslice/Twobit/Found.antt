-- ===== src/Bitslice/Twobit/Found.antt =====
-- One two-bit condition of src/propagate_twobit.h in the loop of src/bitslice.h: what its number is at the end.
use nldtool.Base.{
  ℕ, zero, suc, ◌+◌, ◌<◌, ◌≡◌, ◌↔◌, refl, arith, ap, ap₂, ◌∙◌, Bool, true, false, List, [], ◌∷◌,
  ◌++◌, ◌==◌, ◌&&◌, ◌||◌, not, if◌then◌else◌, Bool-cases, length, length-append, get_or, inl, inr,
  bit_or, tabulate-agree,
}
use nldtool.Bits.{bit, shl, bit-bit_or, bit-zero, bit_or-lt}
use nldtool.Pair.{Pair}
use nldtool.Bitslice.{BitFunction, params, no_pair, loop}
use nldtool.Bitslice.Conditions.{IsBitFunction, fits, fits_bits}
use nldtool.Bitslice.Filled.{admits-fits}
use nldtool.Bitslice.Solutions.{IsSolution}
use nldtool.Bitslice.Loop.{loop-keeps, loop-seen}
use nldtool.Bitslice.Twobit.{BitsliceTwobitCondition, reduce_from, compare_pairs, update_twobit}
use nldtool.Bitslice.Twobit.Values.{
  same_pair, opposite_pair, compare_pairs-same, shown, shown-IsBits, get_or-reduce_from,
}

fits-get :
    (f : BitFunction) (ps : List Pair) (i k : ℕ)
    → k < length ps
    → fits f ps i ≡ true
    → fits_bits (f.bitsize (i + k)) (get_or ps k no_pair) ≡ true
unfolding fits
fits-get f [] i k lt h = absurd (omega arith)
fits-get f (p ∷ ps) i zero lt h = let same : i + 0 ≡ i = omega arith in rw same (ground (arith, h))
fits-get f (p ∷ ps) i (suc k) lt h =
    let next : i + suc k ≡ i + 1 + k = omega arith in
    rw next (fits-get f ps (i + 1) k (omega arith) (ground (arith, h)))

-- The pair of bits that the parameter `i` is shown as.
abbrev pub value : BitFunction → List Pair → ℕ → Pair
value f xs i = shown (f.bitsize i) (get_or (xs ++ f.apply xs) i no_pair)

-- There is a solution, and in each the pairs that the two parameters are shown as are so.
abbrev pub Always : BitFunction → List ℕ → (Pair → Pair → Bool) → ℕ → ℕ → Type 0
Always f d related a b =
    ((xs : List Pair) × IsSolution f d xs)
    × ((xs : List Pair) → IsSolution f d xs → related (value f xs a) (value f xs b) ≡ true)

seen_code : Bool → Bool → ℕ
seen_code x y = bit_or (if not x then 1 else 0) (shl (if not y then 1 else 0) 1)

seen_code-bits :
    (x y : Bool)
    → (seen_code x y < 4) × (bit (seen_code x y) 0 ≡ not x) × (bit (seen_code x y) 1 ≡ not y)
unfolding seen_code shl bit
seen_code-bits true true = (omega arith, refl, refl)
seen_code-bits true false = (omega arith, refl, refl)
seen_code-bits false true = (omega arith, refl, refl)
seen_code-bits false false = (omega arith, refl, refl)

two_bits : ℕ → List Bool
two_bits c = (c == 1) ∷ (c == 2) ∷ []

two_bits_of : ℕ → List Bool
two_bits_of c = (bit c 0 && not (bit c 1)) ∷ (not (bit c 0) && bit c 1) ∷ []

two_bits-of : (c : ℕ) → c < 4 → two_bits c ≡ two_bits_of c
unfolding two_bits two_bits_of bit
two_bits-of c lt = tabulate-agree 4 two_bits two_bits_of refl c lt

-- If `x` tells a solution without `Q` and `y` one without `P`, and no solution has both, `x` alone tells that there are
-- solutions and all have `P`.
only :
    (f : BitFunction) (d : List ℕ) (P Q : List Pair → Bool)
    → ((xs : List Pair) → P xs ≡ true → Q xs ≡ false)
    → (x y : Bool) → (x ≡ true) ↔ ((xs : List Pair) × IsSolution f d xs × (not (Q xs) ≡ true))
    → (y ≡ true) ↔ ((xs : List Pair) × IsSolution f d xs × (not (P xs) ≡ true))
    → ((x && not y) ≡ true) ↔ (
        ((xs : List Pair) × IsSolution f d xs)
        × ((xs : List Pair) → IsSolution f d xs → P xs ≡ true))
only f d P Q exclusive x y without_q without_p = (
  λ h.
      let (xs, solution, differ) = without_q.0 (ground (arith, h)) in
      (
        (xs, solution),
        λ ys good. elim (Bool-cases (P ys)) [
          | inl t ↦ t
          | inr e ↦ absurd (ground (arith, h, without_p.1 (ys, good, ap not e)))
        ],
      ),
  λ ((xs, solution), all).
      let one = without_q.1 (xs, solution, ap not (exclusive xs (all xs solution))) in
      elim (Bool-cases y) [
        | inl h ↦
            let (ys, good, differ) = without_p.0 h in absurd (ground (arith, differ, all ys good))
        | inr h ↦ ground (arith, one, h)
      ],
)

module _ (f : BitFunction) (ok : IsBitFunction f) (d : List ℕ) where
  -- What the comparison of two parameters says of a solution.
  solution-compared :
      (xs : List Pair) (a b : ℕ)
      → IsSolution f d xs
      → a < params f
      → b < params f
      → let ab =
          compare_pairs
            (get_or (reduce_from f (xs ++ f.apply xs) 0) a no_pair)
            (get_or (reduce_from f (xs ++ f.apply xs) 0) b no_pair) in
        ((ab == 0) ≡ same_pair (value f xs a) (value f xs b))
        × ((ab == 3) ≡ opposite_pair (value f xs a) (value f xs b))
  solution-compared xs a b (all, good) ha hb =
      let val = xs ++ f.apply xs in
      let total : length val ≡ params f =
        omega (arith, length-append xs (f.apply xs), all, ok.outputs_all xs all) in
      let fit = admits-fits f d val 0 good in
      let from_a : 0 + a ≡ a = omega arith in
      let from_b : 0 + b ≡ b = omega arith in
      let at_a = get_or-reduce_from f val 0 a (omega (arith, total)) in
      let at_b = get_or-reduce_from f val 0 b (omega (arith, total)) in
      let fit_a = fits-get f val 0 a (omega (arith, total)) fit in
      let fit_b = fits-get f val 0 b (omega (arith, total)) fit in
      rw (at_a, at_b)
        (rw (from_a, from_b)
          (compare_pairs-same (value f xs a) (value f xs b)
            (shown-IsBits (f.bitsize a) (get_or val a no_pair) (rw from_a at fit_a))
            (shown-IsBits (f.bitsize b) (get_or val b no_pair) (rw from_b at fit_b))))

  module _ (t : BitsliceTwobitCondition) (ha : t.a < params f) (hb : t.b < params f)
      (start : t.c ≡ 0) where
    abbrev step : List Pair → BitsliceTwobitCondition → BitsliceTwobitCondition
    step val s = update_twobit (reduce_from f val 0) s

    -- The two-bit condition at the end of the loop.
    abbrev pub found : BitsliceTwobitCondition
    found = loop f d step t

    abbrev Good : BitsliceTwobitCondition → Type 0
    Good s = (s.a ≡ t.a) × (s.b ≡ t.b) × (s.c < 4)

    step-keeps :
        (xs : List Pair) (s : BitsliceTwobitCondition)
        → IsSolution f d xs
        → Good s
        → Good (step (xs ++ f.apply xs) s)
    unfolding update_twobit seen_code
    step-keeps xs s solution (ea, eb, lt) =
        let val = reduce_from f (xs ++ f.apply xs) 0 in
        let ab = compare_pairs (get_or val s.a no_pair) (get_or val s.b no_pair) in
        (ea, eb, bit_or-lt 2 s.c _ lt (seen_code-bits (ab == 3) (ab == 0)).0)

    pub found-Good : Good found
    found-Good = loop-keeps f ok d step Good step-keeps t (refl, refl, omega (arith, start))

    -- The bits of the number that a solution adds.
    step-bits :
        (xs : List Pair) (s : BitsliceTwobitCondition)
        → IsSolution f d xs
        → Good s
        → (bit ((step (xs ++ f.apply xs) s).c) 0
            ≡ (bit s.c 0 || not (opposite_pair (value f xs t.a) (value f xs t.b))))
          × (bit ((step (xs ++ f.apply xs) s).c) 1
              ≡ (bit s.c 1 || not (same_pair (value f xs t.a) (value f xs t.b))))
    unfolding update_twobit seen_code
    step-bits xs s solution (ea, eb, lt) =
        let val = reduce_from f (xs ++ f.apply xs) 0 in
        let ab = compare_pairs (get_or val s.a no_pair) (get_or val s.b no_pair) in
        let moved : ab ≡ compare_pairs (get_or val t.a no_pair) (get_or val t.b no_pair) =
          ap₂ (λ x y. compare_pairs (get_or val x no_pair) (get_or val y no_pair)) ea eb in
        let (zero_same, three_opposite) = solution-compared xs t.a t.b solution ha hb in
        let code = seen_code-bits (ab == 3) (ab == 0) in
        (
          bit-bit_or s.c (seen_code (ab == 3) (ab == 0)) 0
              ∙ ap (λ q. bit s.c 0 || q)
                  (code.1 ∙ ap (λ x. not (x == 3)) moved ∙ ap not three_opposite),
          bit-bit_or s.c (seen_code (ab == 3) (ab == 0)) 1
              ∙ ap (λ q. bit s.c 1 || q) (code.2 ∙ ap (λ x. not (x == 0)) moved ∙ ap not zero_same),
        )

    -- The values of the two parameters in inputs with their outputs.
    abbrev at : (Pair → Pair → Bool) → List Pair → Bool
    at related val =
        related (shown (f.bitsize t.a) (get_or val t.a no_pair))
          (shown (f.bitsize t.b) (get_or val t.b no_pair))

    blank : (i : ℕ) → bit t.c i ≡ false
    blank i = ap (λ c. bit c i) start ∙ bit-zero i

    seen_unequal : (bit (found.c) 0 ≡ true) ↔ (
        (xs : List Pair) × IsSolution f d xs
        × (not (opposite_pair (value f xs t.a) (value f xs t.b)) ≡ true))
    seen_unequal =
        loop-seen f ok d step Good step-keeps (λ s. bit s.c 0) (λ val. not (at opposite_pair val))
          (λ xs s solution good. (step-bits xs s solution good).0) t
          (refl, refl, omega (arith, start)) (blank 0)

    seen_unopposed : (bit (found.c) 1 ≡ true) ↔ (
        (xs : List Pair) × IsSolution f d xs
        × (not (same_pair (value f xs t.a) (value f xs t.b)) ≡ true))
    seen_unopposed =
        loop-seen f ok d step Good step-keeps (λ s. bit s.c 1) (λ val. not (at same_pair val))
          (λ xs s solution good. (step-bits xs s solution good).1) t
          (refl, refl, omega (arith, start)) (blank 1)

    codes : two_bits (found.c) ≡ two_bits_of (found.c)
    codes = two_bits-of (found.c) found-Good.2

    -- The number is 1 exactly if the parameters are equal in every solution, and there is one.
    pub found-same : (found.c ≡ 1) ↔ Always f d same_pair t.a t.b
    unfolding two_bits two_bits_of
    found-same =
        let code : (found.c == 1) ≡ (bit (found.c) 0 && not (bit (found.c) 1)) =
          ap (λ (l : List Bool). get_or l 0 true) codes in
        let (there, back) =
          only f d (λ xs. same_pair (value f xs t.a) (value f xs t.b))
            (λ xs. opposite_pair (value f xs t.a) (value f xs t.b)) (λ xs h. ground (arith, h))
            (bit (found.c) 0) (bit (found.c) 1) seen_unequal seen_unopposed in
        (λ e. there (ground (arith, code, e)), λ always. ground (arith, code, back always))

    -- The number is 2 exactly if the parameters are opposite in every solution, and there is one.
    pub found-opposite : (found.c ≡ 2) ↔ Always f d opposite_pair t.a t.b
    unfolding two_bits two_bits_of
    found-opposite =
        let code : (found.c == 2) ≡ (not (bit (found.c) 0) && bit (found.c) 1) =
          ap (λ (l : List Bool). get_or l 1 true) codes in
        let (there, back) =
          only f d (λ xs. opposite_pair (value f xs t.a) (value f xs t.b))
            (λ xs. same_pair (value f xs t.a) (value f xs t.b)) (λ xs h. ground (arith, h))
            (bit (found.c) 1) (bit (found.c) 0) seen_unopposed seen_unequal in
        (λ e. there (ground (arith, code, e)), λ always. ground (arith, code, back always))
