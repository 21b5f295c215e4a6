-- ===== src/Bitslice/Optimal.antt =====
-- `Loop<Propagate<F>>` of src/bitslice.h against a description of its result without indices and loops.
use nldtool.Base.{
  ℕ, zero, suc, ◌+◌, ◌-◌, ◌/◌, ◌%◌, ◌≤◌, ◌<◌, ◌≡◌, ◌↔◌, refl, arith, ap, ◌∙◌, true, false, List,
  ◌||◌, ◌++◌, ◌==◌, length, length-append, length-replicate, get_or, replicate,
}
use nldtool.Bits.{bit, bit-zero}
use nldtool.Pair.{Pair}
use nldtool.WordContainer.Ranges.{bit_at, bit-get}
use nldtool.Bitslice.{
  BitFunction, params, num_words, no_conditions, get_condition, pair_code, no_pair, propagate,
  condition_index, collect,
}
use nldtool.Bitslice.Conditions.{IsBitFunction, range_of}
use nldtool.Bitslice.Choices.{admits}
use nldtool.Bitslice.Collect.{bit-collect, length-collect}
use nldtool.Bitslice.Filled.{admits-fits}
use nldtool.Bitslice.Loop.{loop-seen}

get_or-zeros : (n i : ℕ) → get_or {A = ℕ} (replicate n 0) i 0 ≡ 0
get_or-zeros zero i = refl
get_or-zeros (suc n) zero = refl
get_or-zeros (suc n) (suc i) = get_or-zeros n i

module _ (f : BitFunction) (ok : IsBitFunction f) (d : List ℕ) (j b : ℕ) (hj : j < params f) where
  -- Inputs and their outputs that the conditions admit, with the place `b` at parameter `j`.
  abbrev pub Admitted : Type 0
  Admitted =
      (xs : List Pair) × (length xs ≡ f.inputs)
      × (admits f d (xs ++ f.apply xs) 0 ≡ true)
      × (pair_code f j (get_or (xs ++ f.apply xs) j no_pair) ≡ b)

  blank : bit (get_condition f (no_conditions f) j) b ≡ false
  unfolding get_condition no_conditions bit_at
  blank =
      let (le, lt, size, room) = range_of f ok j hj in
      let start = condition_index f j in
      let p = start + b in
      let empty : bit (get_or (replicate (num_words f) 0) (p / 64) 0) (p % 64) ≡ false =
        ap (λ x. bit x (p % 64)) (get_or-zeros (num_words f) (p / 64)) ∙ bit-zero (p % 64) in
      ground (
        arith,
        empty,
        bit-get (replicate (num_words f) 0) start (condition_index f (j + 1) - 1) b le lt,
      )

  long_start : num_words f ≤ length (no_conditions f)
  unfolding no_conditions
  long_start = omega (arith, length-replicate {A = ℕ} (num_words f) 0)

  -- `Collect` at a solution.
  collect-seen :
      (xs : List Pair) (s : List ℕ)
      → (length xs ≡ f.inputs) × (admits f d (xs ++ f.apply xs) 0 ≡ true)
      → num_words f ≤ length s
      → bit (get_condition f (collect f s (xs ++ f.apply xs) 0) j) b
        ≡ (bit (get_condition f s j) b || pair_code f j (get_or (xs ++ f.apply xs) j no_pair) == b)
  collect-seen xs s (all, good) long =
      let val = xs ++ f.apply xs in
      let total : length val ≡ params f =
        omega (arith, length-append xs (f.apply xs), all, ok.outputs_all xs all) in
      let start : j - 0 ≡ j = omega arith in
      let added =
        bit-collect f ok s val 0 j b long (omega (arith, total)) (admits-fits f d val 0 good) hj in
      let added' = rw start at added in ground (arith, total, added')

  -- For a function that meets IsBitFunction and one of its parameters, a pair of values is left possible exactly if it
  -- occurs in inputs that the conditions admit together with their outputs: the condition is the optimal one.
  pub propagate-optimal : (bit (get_condition f (propagate f d) j) b ≡ true) ↔ Admitted
  unfolding propagate
  propagate-optimal =
      let found =
        loop-seen f ok d (λ val output. collect f output val 0) (λ s. num_words f ≤ length s)
          (λ xs s solution long. omega (arith, length-collect f ok s (xs ++ f.apply xs) 0, long))
          (λ s. bit (get_condition f s j) b) (λ val. pair_code f j (get_or val j no_pair) == b)
          collect-seen (no_conditions f) long_start blank in
      (
        λ h.
            let (xs, solution, mark) = found.0 h in
            (xs, solution.0, solution.1, ground (arith, mark)),
        λ (xs, all, good, place). found.1 (xs, (all, good), ground (arith, place)),
      )
