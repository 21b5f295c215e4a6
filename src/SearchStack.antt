-- ===== src/SearchStack.antt =====
-- src/search_stack.h and src/search_stack.cpp: the guesses of the search, in elements that each begin with a copy of
-- the characteristic. The characteristic is a parameter, with what the stack does to it: `set_condition` for
-- SetBitCondition, `update` for Update(true), and `checked` for the effect of an assertion that calls
-- Update. Elements and guesses are listed from the back of the vector on.
pub mod Sizes
pub mod Choice
use nldtool.Base.{
  ℕ, zero, suc, ◌+◌, ◌-◌, Bool, true, false, List, [], ◌∷◌, Option, none, some, ltb, leb, ◌==◌,
  if◌then◌else◌, length,
}
use nldtool.Bitmask.{Bitpos}

-- `guess_container`: a position and its two conditions.
pub record Guess : Type 0 where
  pub pos : Bitpos
  pub cond1 : ℕ
  pub cond2 : ℕ

pub record StackElement (C : Type 0) : Type 0 where
  pub characteristic : C
  pub guesses : List Guess
  pub phase : ℕ

-- The guesses without the last `steps`.
unfoldable pub drop_guesses : ℕ → List Guess → List Guess
drop_guesses zero guesses = guesses
drop_guesses (suc steps) [] = []
drop_guesses (suc steps) (g ∷ guesses) = drop_guesses steps guesses

module _ {C : Type 0} where
  unfoldable pub size : List (StackElement C) → ℕ
  size [] = 0
  size (el ∷ rest) = length el.guesses + size rest

  unfoldable pub empty : List (StackElement C) → Bool
  empty s = size s == 0

  unfoldable pub push_back : C → ℕ → List (StackElement C) → List (StackElement C)
  push_back c phase s = record { characteristic = c; guesses = []; phase = phase } ∷ s

  -- `add_guess(c, pos, cond1, cond2)`; the source asserts that there is an element.
  unfoldable pub add_guess : ℕ → C → Bitpos → ℕ → ℕ → List (StackElement C) → List (StackElement C)
  add_guess frequency c pos cond1 cond2 [] = []
  add_guess frequency c pos cond1 cond2 (el ∷ rest) =
      let guess : Guess = record { pos = pos; cond1 = cond1; cond2 = cond2 } in
      let el1 = record el { guesses = guess ∷ el.guesses } in
      if leb frequency (length el1.guesses) then push_back c el1.phase (el1 ∷ rest) else el1 ∷ rest

  -- `back_guess()`: the last guess, without the elements that have none.
  unfoldable pub back_guess : List (StackElement C) → Option (Guess × List (StackElement C))
  back_guess [] = none
  back_guess (el ∷ rest) = elim el.guesses [
    | [] ↦ back_guess rest
    | guess ∷ guesses ↦ some (guess, record el { guesses = guesses } ∷ rest)
  ]

  -- The loop of `backtrack` that drops whole elements, and the steps that are left.
  unfoldable pub drop_elements :
      ℕ → StackElement C → List (StackElement C) → ℕ × StackElement C × List (StackElement C)
  drop_elements steps el [] = (steps, el, [])
  drop_elements steps el (next ∷ rest) =
      let later = drop_elements (steps - length el.guesses) next rest in
      if ltb (length el.guesses) steps then later else (steps, el, next ∷ rest)

module _ {C : Type 0} (set_condition : C → Bitpos → ℕ → C) (update : C → C × Bool)
    (checked : C → C) where
  -- The loop `for (auto& guess : guesses) ret.first.SetBitCondition(…)`.
  unfoldable pub redo : List Guess → C → C
  redo [] c = c
  redo (g ∷ guesses) c = set_condition (redo guesses c) g.pos g.cond1

  -- What `get_pop_back` leaves on the stack.
  unfoldable pub pop_last : List (StackElement C) → List (StackElement C)
  pop_last [] = []
  pop_last (el ∷ rest) = record el { guesses = drop_guesses 1 el.guesses } ∷ rest

  unfoldable pub get_pop_back : List (StackElement C) → Option ((C × ℕ) × List (StackElement C))
  get_pop_back [] = none
  get_pop_back (el ∷ rest) = some (
    (checked (redo el.guesses el.characteristic), el.phase),
    if length el.guesses == 0 then pop_last rest else pop_last (el ∷ rest),
  )

  -- `backtrack(steps)`.
  unfoldable pub backtrack : ℕ → List (StackElement C) → Option ((C × ℕ) × List (StackElement C))
  backtrack steps [] = none
  backtrack steps (el ∷ rest) =
      let dropped = drop_elements steps el rest in
      let left = dropped.0 in
      let back = dropped.1 in
      let kept = record back { guesses = drop_guesses left back.guesses } in
      if ltb (length back.guesses) left
      then some ((back.characteristic, back.phase), record back { guesses = [] } ∷ dropped.2)
      else some ((checked (redo kept.guesses back.characteristic), back.phase), kept ∷ dropped.2)

  -- One round of the loops of `backtrack_to_other_choice` on a guess that has been taken from the stack, with its
  -- second choice not `#`.
  unfoldable pub try_choice :
      ℕ → Guess → List (StackElement C) → Option ((C × ℕ) × List (StackElement C))
  try_choice frequency g [] = none
  try_choice frequency g (el ∷ rest) =
      let c = set_condition (redo el.guesses el.characteristic) g.pos g.cond2 in
      let updated = update c in
      if updated.1
      then some ((updated.0, el.phase), add_guess frequency updated.0 g.pos g.cond2 0 (el ∷ rest))
      else none

  -- The back of the stack, which is returned when no guess is left.
  unfoldable pub bottom : List (StackElement C) → Option ((C × ℕ) × List (StackElement C))
  bottom [] = none
  bottom (el ∷ rest) = some ((el.characteristic, el.phase), el ∷ rest)

  -- `backtrack_to_other_choice()` with fuel. Both loops return alike when the stack is empty, so that they are one
  -- loop here.
  unfoldable pub other_choice :
      ℕ → ℕ → List (StackElement C) → Option ((C × ℕ) × List (StackElement C))
  other_choice frequency zero s = none
  other_choice frequency (suc fuel) s = if empty s then bottom s else elim (back_guess s) [
    | none ↦ none
    | some taken ↦
        let later = other_choice frequency fuel taken.1 in
        if taken.0.cond2 == 0
        then later
        else elim (try_choice frequency taken.0 taken.1) [ none ↦ later | some found ↦ some found ]
  ]
