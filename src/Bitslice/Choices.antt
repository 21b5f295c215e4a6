-- ===== src/Bitslice/Choices.antt =====
-- `SetupPairs` and `GetPair` of src/bitslice_data.h: the choices of indices stand for the inputs that the conditions
-- admit.
use nldtool.Base.{
  ℕ, zero, suc, ◌+◌, ◌*◌, ◌^◌, ◌≤◌, ◌<◌, ◌≡◌, refl, arith, ap, ap₂, sym, ◌∙◌, Bool, true, List, [],
  ◌∷◌, ◌++◌, map, ◌&&◌, Bool-cases, length, get_or, All, inl, inr,
}
use native.Mathlib.Decide.{ℕ_discrete}
use nldtool.Bits.{bit}
use nldtool.Pair.{Pair}
use nldtool.Bitslice.{
  BitFunction, get_condition, pair_code, pairs_at, pairs_from, input_pairs, setup_from, chosen,
  no_pair,
}
use nldtool.Bitslice.Conditions.{IsBitFunction, fits_bits, pair_place}
use nldtool.Bitslice.Counter.{in_range}

-- A pair is in the list.
abbrev pub Listed : Pair → List Pair → Type 0
Listed p ps = (k : ℕ) × (k < length ps) × (get_or ps k no_pair ≡ p)

Listed-left : (p : Pair) (ps qs : List Pair) → Listed p ps → Listed p (ps ++ qs)
Listed-left p [] qs (k, lt, e) = absurd (omega arith)
Listed-left p (x ∷ ps) qs (zero, lt, e) = (0, omega arith, e)
Listed-left p (x ∷ ps) qs (suc k, lt, e) =
    let (k', lt', e') = Listed-left p ps qs (k, omega arith, e) in (suc k', omega arith, e')

Listed-right : (p : Pair) (ps qs : List Pair) → Listed p qs → Listed p (ps ++ qs)
Listed-right p [] qs h = h
Listed-right p (x ∷ ps) qs h = let (k, lt, e) = Listed-right p ps qs h in (suc k, omega arith, e)

All-append {κ} : (P : Pair → Type κ) (ps qs : List Pair) → All P ps → All P qs → All P (ps ++ qs)
All-append P [] qs hp hq = hq
All-append P (x ∷ ps) qs hp hq = (hp.0, All-append P ps qs hp.1 hq)

All-get {κ} :
    (P : Pair → Type κ) (ps : List Pair) (k : ℕ)
    → k < length ps
    → All P ps
    → P (get_or ps k no_pair)
All-get P [] k lt h = absurd (omega arith)
All-get P (x ∷ ps) zero lt h = h.0
All-get P (x ∷ ps) (suc k) lt h = All-get P ps k (omega arith) h.1

module _ (f : BitFunction) (cond num : ℕ) where
  -- The condition has the pair, of numbers below `num`.
  abbrev In : Pair → Type 0
  In p = (p.first < num) × (p.second < num) × (bit cond (p.second * num + p.first) ≡ true)

  pairs_at-All : (a left b : ℕ) → a < num → b + left ≤ num → All In (pairs_at f cond num a left b)
  unfolding pairs_at
  pairs_at-All a zero b ha h = tt
  pairs_at-All a (suc left) b ha h =
      let rest = pairs_at-All a left (b + 1) ha (omega arith) in
      elim (Bool-cases (bit cond (b * num + a))) [
        | inl t ↦ rw t ((ha, omega arith, t), rest)
        | inr e ↦ rw e rest
      ]

  pairs_from-All : (left a : ℕ) → a + left ≤ num → All In (pairs_from f cond num left a)
  unfolding pairs_from
  pairs_from-All zero a h = tt
  pairs_from-All (suc left) a h =
      All-append In (pairs_at f cond num a num 0) (pairs_from f cond num left (a + 1))
        (pairs_at-All a num 0 (omega arith) (omega arith))
        (pairs_from-All left (a + 1) (omega arith))

  Listed-pairs_at :
      (a x left b : ℕ)
      → b ≤ x
      → x < b + left
      → bit cond (x * num + a) ≡ true
      → Listed (record { first = a; second = x }) (pairs_at f cond num a left b)
  unfolding pairs_at
  Listed-pairs_at a x zero b le lt t = absurd (omega arith)
  Listed-pairs_at a x (suc left) b le lt t = elim (ℕ_discrete x b) [
    | yes e ↦
        let now : bit cond (b * num + a) ≡ true = rw (sym e) t in
        rw now (0, omega arith, ap (λ y. record { first = a; second = y }) (sym e))
    | no ne ↦
        let (k, below, found) = Listed-pairs_at a x left (b + 1) (omega arith) (omega arith) t in
        elim (Bool-cases (bit cond (b * num + a))) [
          | inl s ↦ rw s (suc k, omega arith, found)
          | inr s ↦ rw s (k, below, found)
        ]
  ]

  Listed-pairs_from :
      (p : Pair) (left a : ℕ)
      → a ≤ p.first
      → p.first < a + left
      → In p
      → Listed p (pairs_from f cond num left a)
  unfolding pairs_from
  Listed-pairs_from p zero a le lt i = absurd (omega arith)
  Listed-pairs_from p (suc left) a le lt i = elim (ℕ_discrete p.first a) [
    | yes e ↦
        Listed-left p (pairs_at f cond num a num 0) (pairs_from f cond num left (a + 1)) (
          rw (sym e)
            (Listed-pairs_at p.first p.second num 0 (omega arith) (omega (arith, i.1)) i.2))
    | no ne ↦
        Listed-right p (pairs_at f cond num a num 0) (pairs_from f cond num left (a + 1))
          (Listed-pairs_from p left (a + 1) (omega arith) (omega arith) i)
  ]

-- The pairs have the bits of the parameters from `i` on, and their conditions have them.
unfoldable pub admits : BitFunction → List ℕ → List Pair → ℕ → Bool
admits f conditions [] i = true
admits f conditions (p ∷ ps) i =
    fits_bits (f.bitsize i) p
    && bit (get_condition f conditions i) (pair_code f i p)
    && admits f conditions ps (i + 1)

module _ (f : BitFunction) (ok : IsBitFunction f) (d : List ℕ) where
  -- An input that is in the list of its pairs is admitted, and the other way round.
  in_list :
      (j k : ℕ)
      → k < length (input_pairs f d j)
      → let p = get_or (input_pairs f d j) k no_pair in
        (fits_bits (f.bitsize j) p && bit (get_condition f d j) (pair_code f j p)) ≡ true
  unfolding input_pairs
  in_list j k lt =
      let p = get_or (input_pairs f d j) k no_pair in
      let num = 2 ^ f.bitsize j in
      let (fst, snd, has) =
        All-get (In f (get_condition f d j) num) (input_pairs f d j) k lt
          (pairs_from-All f (get_condition f d j) num num 0 (omega arith)) in
      let place = pair_place (f.bitsize j) p.first p.second (ok.bits_to j) fst snd in
      rw place.0 (ground (arith, fst, snd, has))

  Listed-input_pairs :
      (j : ℕ) (p : Pair)
      → (fits_bits (f.bitsize j) p && bit (get_condition f d j) (pair_code f j p)) ≡ true
      → Listed p (input_pairs f d j)
  unfolding input_pairs
  Listed-input_pairs j p h =
      let num = 2 ^ f.bitsize j in
      let fst : p.first < num = ground (arith, h) in
      let snd : p.second < num = ground (arith, h) in
      let has : bit (get_condition f d j) (pair_code f j p) ≡ true = ground (arith, h) in
      let place = pair_place (f.bitsize j) p.first p.second (ok.bits_to j) fst snd in
      Listed-pairs_from f (get_condition f d j) num p num 0 (omega arith) (omega (arith, fst))
        (fst, snd, ap (bit (get_condition f d j)) (sym place.0) ∙ has)

  pub chosen-admits :
      (left j : ℕ) (indices : List ℕ)
      → in_range indices (map length (setup_from f d left j)) ≡ true
      → (length (chosen f (setup_from f d left j) indices) ≡ left)
        × (admits f d (chosen f (setup_from f d left j) indices) j ≡ true)
  unfolding setup_from chosen in_range admits
  chosen-admits zero j indices h = (refl, refl)
  chosen-admits (suc left) j [] h = absurd (ground (arith, h))
  chosen-admits (suc left) j (i ∷ indices) h =
      let (all, good) = chosen-admits left (j + 1) indices (ground (arith, h)) in
      let here = in_list j i (ground (arith, h)) in (ap suc all, ground (arith, good, here))

  pub admits-chosen :
      (left j : ℕ) (ps : List Pair)
      → length ps ≡ left
      → admits f d ps j ≡ true
      → (indices : List ℕ) × (in_range indices (map length (setup_from f d left j)) ≡ true)
        × (chosen f (setup_from f d left j) indices ≡ ps)
  unfolding setup_from chosen in_range admits
  admits-chosen zero j [] e h = ([], refl, refl)
  admits-chosen zero j (p ∷ ps) e h = absurd (omega arith)
  admits-chosen (suc left) j [] e h = absurd (omega arith)
  admits-chosen (suc left) j (p ∷ ps) e h =
      let (k, lt, found) = Listed-input_pairs j p (ground (arith, h)) in
      let (indices, inside, same) =
        admits-chosen left (j + 1) ps (omega arith) (ground (arith, h)) in
      (k ∷ indices, ground (arith, lt, inside), ap₂ (λ x xs. x ∷ xs) found same)
