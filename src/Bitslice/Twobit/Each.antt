-- ===== src/Bitslice/Twobit/Each.antt =====
-- `Loop<A>` of src/bitslice.h for an action on each element of a list.
use nldtool.Base.{
  ℕ, zero, suc, ◌≡◌, refl, ap, ◌∙◌, List, [], ◌∷◌, ◌++◌, map, Bool-cases, length, replicate, inl,
  inr,
}
use nldtool.Pair.{Pair}
use nldtool.Bitslice.{
  BitFunction, is_pair, setup_from, chosen, increment, try_choice, choice_loop, count_choices,
  all_filled, loop,
}
use nldtool.Bitslice.Conditions.{IsBitFunction}
use nldtool.Bitslice.Loop.{loop-keeps}

-- An action on each element of a list runs over the list as it runs over its elements.
module _ (f : BitFunction) (d : List ℕ) {S : Type 0} (act : List Pair → S → S) where
  abbrev on_each : List Pair → List S → List S
  on_each val states = map (act val) states

  try_choice-cons :
      (pairs : List (List Pair)) (indices : List ℕ) (s : S) (states : List S)
      → try_choice f d on_each pairs indices (s ∷ states)
        ≡ try_choice f d act pairs indices s ∷ try_choice f d on_each pairs indices states
  unfolding try_choice
  try_choice-cons pairs indices s states =
      elim (Bool-cases (is_pair f d (f.apply (chosen f pairs indices)) f.inputs)) [
        | inl t ↦ rw t refl
        | inr e ↦ rw e refl
      ]

  choice_loop-cons :
      (fuel : ℕ) (pairs : List (List Pair)) (indices : List ℕ) (s : S) (states : List S)
      → choice_loop f d on_each fuel pairs indices (s ∷ states)
        ≡ choice_loop f d act fuel pairs indices s
          ∷ choice_loop f d on_each fuel pairs indices states
  unfolding choice_loop
  choice_loop-cons zero pairs indices s states = refl
  choice_loop-cons (suc fuel) pairs indices s states =
      let now = try_choice-cons pairs indices s states in
      let next = increment indices (map length pairs) in
      elim (Bool-cases next.1) [
        | inl t ↦ rw t (
            ap (choice_loop f d on_each fuel pairs next.0) now
            ∙ choice_loop-cons fuel pairs next.0 (try_choice f d act pairs indices s)
                (try_choice f d on_each pairs indices states))
        | inr e ↦ rw e now
      ]

  loop-cons :
      (s : S) (states : List S)
      → loop f d on_each (s ∷ states) ≡ loop f d act s ∷ loop f d on_each states
  unfolding loop
  loop-cons s states =
      let pairs = setup_from f d f.inputs 0 in
      elim (Bool-cases (all_filled f pairs)) [
        | inl t ↦
            rw t (choice_loop-cons (count_choices pairs) pairs (replicate f.inputs 0) s states)
        | inr e ↦ rw e refl
      ]

  loop-nil : IsBitFunction f → loop f d on_each [] ≡ []
  loop-nil ok =
      loop-keeps f ok d on_each (λ states. states ≡ [])
        (λ xs s solution e. ap (on_each (xs ++ f.apply xs)) e) [] refl

  pub loop-map :
      IsBitFunction f → (states : List S) → loop f d on_each states ≡ map (loop f d act) states
  loop-map ok [] = loop-nil ok
  loop-map ok (s ∷ states) = loop-cons s states ∙ ap (λ l. loop f d act s ∷ l) (loop-map ok states)
