-- ===== src/SearchStack/Sizes.antt =====
-- How the operations of src/search_stack.cpp change the number of guesses on the stack.
use nldtool.Base.{
  ℕ, zero, suc, ◌+◌, ◌-◌, ◌<◌, ◌≡◌, refl, arith, Bool, List, [], ◌∷◌, some, ltb, leb, ltb→lt,
  length, Bool-cases, inl, inr,
}
use nldtool.Bitmask.{Bitpos}
use nldtool.SearchStack.{
  Guess, StackElement, size, push_back, add_guess, drop_elements, drop_guesses, backtrack, redo,
}

length-drop_guesses :
    (steps : ℕ) (guesses : List Guess)
    → length (drop_guesses steps guesses) ≡ length guesses - steps
unfolding drop_guesses
length-drop_guesses zero guesses = omega arith
length-drop_guesses (suc steps) [] = omega arith
length-drop_guesses (suc steps) (g ∷ guesses) = omega (arith, length-drop_guesses steps guesses)

module _ {C : Type 0} where
  -- On a stack with an element, `add_guess` adds one guess.
  pub size-add_guess :
      (frequency : ℕ) (c : C) (pos : Bitpos) (cond1 cond2 : ℕ) (el : StackElement C)
      (rest : List (StackElement C))
      → size (add_guess frequency c pos cond1 cond2 (el ∷ rest)) ≡ size (el ∷ rest) + 1
  unfolding size add_guess push_back
  size-add_guess frequency c pos cond1 cond2 el rest =
      elim (Bool-cases (leb frequency (suc (length el.guesses)))) [
        | inl t ↦ rw t (omega arith)
        | inr f ↦ rw f (omega arith)
      ]

  size-drop_elements :
      (steps : ℕ) (el : StackElement C) (rest : List (StackElement C))
      → (length (drop_elements steps el rest).1.guesses + size (drop_elements steps el rest).2)
          - (drop_elements steps el rest).0
        ≡ size (el ∷ rest) - steps
  unfolding size drop_elements
  size-drop_elements steps el [] = omega arith
  size-drop_elements steps el (next ∷ rest) =
      let later = size-drop_elements (steps - length el.guesses) next rest in
      elim (Bool-cases (ltb (length el.guesses) steps)) [
        | inl t ↦ rw t (ground (arith, later))
        | inr f ↦ rw f (omega arith)
      ]

  drop_elements-end :
      (steps : ℕ) (el : StackElement C) (rest : List (StackElement C))
      → length (drop_elements steps el rest).1.guesses < (drop_elements steps el rest).0
      → size (drop_elements steps el rest).2 ≡ 0
  unfolding drop_elements
  drop_elements-end steps el [] h = unfold size in refl
  drop_elements-end steps el (next ∷ rest) h = elim (Bool-cases (ltb (length el.guesses) steps)) [
    | inl t ↦ rw t (drop_elements-end (steps - length el.guesses) next rest (rw t at h))
    | inr f ↦ absurd (let h' : length el.guesses < steps = rw f at h in ground arith)
  ]

module _ {C : Type 0} (set_condition : C → Bitpos → ℕ → C) (update : C → C × Bool)
    (checked : C → C) where
  -- On a stack with an element, `backtrack(steps)` returns, and takes `steps` guesses from the stack, or all where it
  -- has fewer.
  pub size-backtrack :
      (steps : ℕ) (el : StackElement C) (rest : List (StackElement C))
      → (result : (C × ℕ) × List (StackElement C)) × (backtrack set_condition update checked steps
            (el ∷ rest)
          ≡ some result)
        × (size result.1 ≡ size (el ∷ rest) - steps)
  unfolding backtrack
  size-backtrack steps el rest =
      let d = drop_elements steps el rest in
      let whole = size-drop_elements steps el rest in
      elim (Bool-cases (ltb (length d.1.guesses) d.0)) [
        | inl t ↦
            let ends = drop_elements-end steps el rest (ltb→lt (length d.1.guesses) d.0 t) in
            (
              ((d.1.characteristic, d.1.phase), record d.1 { guesses = [] } ∷ d.2),
              rw t refl,
              unfold size in omega (arith, whole, ends, ltb→lt (length d.1.guesses) d.0 t),
            )
        | inr f ↦
            let kept : StackElement C = record d.1 { guesses = drop_guesses d.0 d.1.guesses } in
            (
              (
                (
                  checked (redo set_condition update checked kept.guesses d.1.characteristic),
                  d.1.phase,
                ),
                kept ∷ d.2,
              ),
              rw f refl,
              unfold size in ground (arith, whole, length-drop_guesses d.0 d.1.guesses),
            )
      ]
