-- ===== src/Bitslice/Solutions.antt =====
-- The solutions of conditions of src/bitslice_data.h: the inputs that they admit together with the outputs, and the
-- choices of indices of src/bitslice.h that stand for them.
use nldtool.Base.{ℕ, ◌+◌, ◌≤◌, ◌≡◌, arith, ◌∙◌, subst, true, List, ◌++◌, map, length, replicate}
use nldtool.Pair.{Pair}
use nldtool.Bitslice.{BitFunction, is_pair, setup_from, chosen, all_filled}
use nldtool.Bitslice.Conditions.{IsBitFunction}
use nldtool.Bitslice.Counter.{in_range}
use nldtool.Bitslice.Choices.{admits, chosen-admits, admits-chosen}
use nldtool.Bitslice.Collect.{is_pair-admits}
use nldtool.Bitslice.Filled.{
  admits-append, admits-fits, length-setup_from, length-map, zeros-in_range,
}

-- The inputs are as many as the function has, and the conditions admit them with their outputs.
abbrev pub IsSolution : BitFunction → List ℕ → List Pair → Type 0
IsSolution f d xs = (length xs ≡ f.inputs) × (admits f d (xs ++ f.apply xs) 0 ≡ true)

module _ (f : BitFunction) (ok : IsBitFunction f) (d : List ℕ) where
  abbrev pub pairs : List (List Pair)
  pairs = setup_from f d f.inputs 0

  abbrev pub sizes : List ℕ
  sizes = map length pairs

  -- A choice in range whose outputs pass is a solution, and a solution comes from such a choice.
  pub choice-IsSolution :
      (indices : List ℕ)
      → in_range indices sizes ≡ true
      → is_pair f d (f.apply (chosen f pairs indices)) f.inputs ≡ true
      → IsSolution f d (chosen f pairs indices)
  choice-IsSolution indices inside t =
      let xs = chosen f pairs indices in
      let (all, good) = chosen-admits f ok d f.inputs 0 indices inside in
      let fit = ok.outputs_fit xs all (admits-fits f d xs 0 good) in
      let from : 0 + length xs ≡ f.inputs = omega (arith, all) in
      let both = admits-append f d xs (f.apply xs) 0 in
      let both' = rw from at both in
      (all, ground (arith, good, both', is_pair-admits f ok d (f.apply xs) f.inputs fit, t))

  pub IsSolution-choice :
      (xs : List Pair)
      → IsSolution f d xs
      → (indices : List ℕ) × (in_range indices sizes ≡ true)
        × (chosen f pairs indices ≡ xs)
        × (is_pair f d (f.apply xs) f.inputs ≡ true)
  IsSolution-choice xs (all, good) =
      let from : 0 + length xs ≡ f.inputs = omega (arith, all) in
      let both = admits-append f d xs (f.apply xs) 0 in
      let both' = rw from at both in
      let ins : admits f d xs 0 ≡ true = ground (arith, good, both') in
      let outs : admits f d (f.apply xs) f.inputs ≡ true = ground (arith, good, both') in
      let fit = ok.outputs_fit xs all (admits-fits f d xs 0 ins) in
      let (indices, inside, same) = admits-chosen f ok d f.inputs 0 xs all ins in
      (indices, inside, same, is_pair-admits f ok d (f.apply xs) f.inputs fit ∙ outs)

  pub some_size : 1 ≤ length sizes
  some_size = omega (arith, length-map pairs, length-setup_from f d f.inputs 0, ok.some_input)

  pub zeros_start : all_filled f pairs ≡ true → in_range (replicate f.inputs 0) sizes ≡ true
  zeros_start t =
      subst (λ n. in_range (replicate n 0) (map length pairs) ≡ true)
        (length-setup_from f d f.inputs 0) (zeros-in_range f pairs t)
