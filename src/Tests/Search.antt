-- ===== src/Tests/Search.antt =====
-- src/search_stack.cpp with a number for the characteristic, to which a guess adds its condition.
use nldtool.Base.{ℕ, ◌+◌, ◌-◌, ◌≡◌, Bool, ltb, arith, true, List, [], ◌∷◌, some}
use nldtool.Bitmask.{Bitpos}
use nldtool.SearchStack.{Guess, StackElement, size, backtrack, other_choice}
use nldtool.SearchStack.Choice.{Returned, other_choice-Returned}
use nldtool.SearchStack.Sizes.{size-backtrack}

abbrev place : Bitpos
place = record { word = 0; bit_index = 3 }

abbrev guess : Guess
guess = record { pos = place; cond1 = 1; cond2 = 2 }

abbrev back : StackElement ℕ
back = record { characteristic = 4; guesses = guess ∷ []; phase = 0 }

abbrev lower : StackElement ℕ
lower = record { characteristic = 2; guesses = guess ∷ guess ∷ []; phase = 0 }

abbrev adds : ℕ → Bitpos → ℕ → ℕ
adds c pos cond = c + cond

size-backtrack_example :
    (result : (ℕ × ℕ) × List (StackElement ℕ)) × (backtrack adds
        (λ c. (c, true))
        (λ c. c)
        2
        (back ∷ lower ∷ [])
      ≡ some result)
    × (size result.1 ≡ size (back ∷ lower ∷ []) - 2)
size-backtrack_example = size-backtrack adds (λ c. (c, true)) (λ c. c) 2 back (lower ∷ [])

-- The characteristic is accepted while it is below ten.
abbrev accepts : ℕ → ℕ × Bool
accepts c = (c, ltb c 10)

other_choice-Returned_example :
    Returned adds accepts
      (λ c. c)
      2
      (back ∷ lower ∷ [])
      (other_choice adds accepts (λ c. c) 2 4 (back ∷ lower ∷ []))
unfolding size
other_choice-Returned_example =
    other_choice-Returned adds accepts (λ c. c) 2 4 (back ∷ lower ∷ []) (omega arith) (omega arith)
