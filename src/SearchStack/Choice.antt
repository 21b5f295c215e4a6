-- ===== src/SearchStack/Choice.antt =====
-- `backtrack_to_other_choice` of src/search_stack.cpp ends, and what it returns.
use nldtool.Base.{
  ℕ, zero, suc, ◌+◌, ◌≤◌, ◌<◌, ◌≡◌, ◌≢◌, refl, arith, ap, sym, ◌∙◌, Bool, true, false, List, [],
  ◌∷◌, Option, none, some, ◌==◌, leb, ◌⊎◌, Bool-cases, List-cases, inl, inr, length,
}
use mathlib.Core.List.{foldr}
use native.Mathlib.Decide.{ℕ_discrete}
use nldtool.Bitmask.{Bitpos}
use nldtool.SearchStack.{
  Guess, StackElement, size, empty, back_guess, push_back, add_guess, try_choice, bottom,
  other_choice, redo,
}
use nldtool.SearchStack.Sizes.{size-add_guess}

module _ {C : Type 0} where
  -- The guess `g` is the last one of the stack, and `left` is the stack without it and without the elements behind it.
  pub Taken : List (StackElement C) → Guess → List (StackElement C) → Type 0
  Taken [] g left = ⊥
  Taken (el ∷ rest) g left =
      ((guesses : List Guess) × (el.guesses ≡ g ∷ guesses)
        × (left ≡ record el { guesses = guesses } ∷ rest))
      ⊎ ((el.guesses ≡ []) × Taken rest g left)

  -- On a stack with guesses `back_guess` takes one and leaves an element.
  back_guess-some :
      (s : List (StackElement C))
      → 0 < size s
      → (g : Guess) × (rest : List (StackElement C)) × (back_guess s ≡ some (g, rest))
        × Taken s g rest
        × (size rest + 1 ≡ size s)
        × (1 ≤ length rest)
  unfolding back_guess size Taken
  back_guess-some [] h = absurd (omega arith)
  back_guess-some (el ∷ rest) h = elim (List-cases el.guesses) [
    | inl e ↦
        let none_here : length el.guesses ≡ 0 = rw e refl in
        let (g, left, found, taken, fewer, more) =
          back_guess-some rest (omega (arith, h, none_here)) in
        (g, left, rw (e, back_guess) found, inr (e, taken), omega (arith, fewer, none_here), more)
    | inr (g, guesses, e) ↦
        let one_more : length el.guesses ≡ length guesses + 1 = rw e (omega arith) in
        (
          g,
          record el { guesses = guesses } ∷ rest,
          rw (e, back_guess) refl,
          inl (guesses, e, refl),
          omega (arith, one_more),
          omega arith,
        )
  ]

  length-add_guess :
      (frequency : ℕ) (c : C) (pos : Bitpos) (x y : ℕ) (el : StackElement C)
      (rest : List (StackElement C))
      → 1 ≤ length (add_guess frequency c pos x y (el ∷ rest))
  unfolding add_guess push_back
  length-add_guess frequency c pos x y el rest =
      elim (Bool-cases (leb frequency (suc (length el.guesses)))) [
        | inl t ↦ rw t (omega arith)
        | inr f ↦ rw f (omega arith)
      ]

module _ {C : Type 0} (set_condition : C → Bitpos → ℕ → C) (update : C → C × Bool)
    (checked : C → C) where
  -- The conditions of the first choices, set from the first guess on.
  unfoldable pub replayed : List Guess → C → C
  replayed guesses c = foldr (λ (g : Guess) (done : C). set_condition done g.pos g.cond1) c guesses

  pub redo-replayed :
      (guesses : List Guess) (c : C)
      → redo set_condition update checked guesses c ≡ replayed guesses c
  unfolding redo replayed
  redo-replayed [] c = refl
  redo-replayed (g ∷ guesses) c = ap (λ d. set_condition d g.pos g.cond1) (redo-replayed guesses c)

  -- The characteristic of the element at the back, with the first choices of its guesses and then the second choice of
  -- the guess `g`.
  abbrev pub second : Guess → StackElement C → C
  second g el = set_condition (replayed el.guesses el.characteristic) g.pos g.cond2

  -- The guess `g`, taken off so that `left` is left, has no second choice, or `Update` refuses it.
  abbrev pub Refused : Guess → List (StackElement C) → Type 0
  Refused g left =
      (g.cond2 ≡ 0)
      ⊎ ((el : StackElement C) × (rest : List (StackElement C)) × (left ≡ el ∷ rest)
          × ((update (second g el)).1 ≡ false))

  -- From the first stack to the second one, guesses are taken off one by one, and each is refused.
  pub data Skipped : List (StackElement C) → List (StackElement C) → Type 0 where
    no_guess : (s : List (StackElement C)) → Skipped s s
    one_guess :
        (s : List (StackElement C)) (g : Guess) (left end : List (StackElement C))
        → Taken s g left
        → Refused g left
        → Skipped left end
        → Skipped s end

  -- No guess is left, and the back of the stack is the result.
  abbrev pub Bottom : List (StackElement C) → (C × ℕ) × List (StackElement C) → Type 0
  Bottom s result =
      (size s ≡ 0)
      × (el : StackElement C) × (rest : List (StackElement C)) × (s ≡ el ∷ rest)
      × (result ≡ ((el.characteristic, el.phase), s))

  -- The last guess has a second choice that `Update` accepts; the result is what `Update` makes of it, the phase of the
  -- element, and the stack with the guess put on it again, without a second choice.
  abbrev pub Chosen : ℕ → List (StackElement C) → (C × ℕ) × List (StackElement C) → Type 0
  Chosen frequency s result =
      (g : Guess) × (el : StackElement C) × (rest : List (StackElement C)) × Taken s g (el ∷ rest)
      × (g.cond2 ≢ 0)
      × (update (second g el) ≡ (result.0.0, true))
      × (result.0.1 ≡ el.phase)
      × (result.1 ≡ add_guess frequency result.0.0 g.pos g.cond2 0 (el ∷ rest))

  abbrev pub Returned :
      ℕ → List (StackElement C) → Option ((C × ℕ) × List (StackElement C)) → Type 0
  Returned frequency s found =
      (result : (C × ℕ) × List (StackElement C)) × (found ≡ some result)
      × (1 ≤ length result.1)
      × (size result.1 ≤ size s)
      × (end : List (StackElement C)) × Skipped s end
      × (Bottom end result ⊎ Chosen frequency end result)

  bottom-Returned :
      (frequency : ℕ) (s : List (StackElement C))
      → 1 ≤ length s
      → size s ≡ 0
      → Returned frequency s (bottom set_condition update checked s)
  unfolding bottom
  bottom-Returned frequency [] h e = absurd (omega arith)
  bottom-Returned frequency (el ∷ rest) h e = (
    ((el.characteristic, el.phase), el ∷ rest),
    refl,
    omega arith,
    omega arith,
    el ∷ rest,
    no_guess (el ∷ rest),
    inl (e, el, rest, refl, refl),
  )

  -- A second choice that `Update` accepts is returned; another one is refused.
  try_choice-cases :
      (frequency : ℕ) (s : List (StackElement C)) (g : Guess) (left : List (StackElement C))
      → 1 ≤ length left
      → Taken s g left
      → size left + 1 ≡ size s
      → g.cond2 ≢ 0
      → ((try_choice set_condition update checked frequency g left ≡ none) × Refused g left)
        ⊎ Returned frequency s (try_choice set_condition update checked frequency g left)
  unfolding try_choice
  try_choice-cases frequency s g [] h taken fewer ne = absurd (omega arith)
  try_choice-cases frequency s g (el ∷ rest) h taken fewer ne =
      let c =
        set_condition (redo set_condition update checked el.guesses el.characteristic) g.pos
          g.cond2 in
      let same : c ≡ second g el =
        ap (λ d. set_condition d g.pos g.cond2) (redo-replayed el.guesses el.characteristic) in
      elim (Bool-cases (update c).1) [
        | inl t ↦
            let next = add_guess frequency (update c).0 g.pos g.cond2 0 (el ∷ rest) in
            inr (
              (((update c).0, el.phase), next),
              rw t refl,
              length-add_guess frequency (update c).0 g.pos g.cond2 0 el rest,
              omega (arith, size-add_guess frequency (update c).0 g.pos g.cond2 0 el rest, fewer),
              s,
              no_guess s,
              inr (
                g,
                el,
                rest,
                taken,
                ne,
                ap update (sym same) ∙ ap (λ b. ((update c).0, b)) t,
                refl,
                refl,
              ),
            )
        | inr f ↦ inl (rw f refl, inr (el, rest, refl, ap (λ d. (update d).1) (sym same) ∙ f))
      ]

  -- What is returned for the stack without a refused guess is returned for the whole stack.
  Returned-later :
      (frequency : ℕ) (s : List (StackElement C)) (g : Guess) (left : List (StackElement C))
      (found : Option ((C × ℕ) × List (StackElement C)))
      → Taken s g left
      → Refused g left
      → size left + 1 ≡ size s
      → Returned frequency left found
      → Returned frequency s found
  Returned-later frequency s g left found taken refused fewer
        (result, e, some_left, most, end, skipped, kind) =
      (
        result,
        e,
        some_left,
        omega (arith, most, fewer),
        end,
        one_guess s g left end taken refused skipped,
        kind,
      )

  -- On a stack with an element and with more fuel than guesses, `backtrack_to_other_choice` returns. It takes guesses
  -- off, the last one first, each of which has no second choice or a second choice that `Update` refuses on the
  -- characteristic of the element at the back with the guesses that are left in it redone. Then either no guess is
  -- left and the back of the stack is returned, or the next guess has a second choice that `Update` accepts; what
  -- `Update` makes of it is returned, with the phase of the element, and the guess is put on the stack again without a
  -- second choice. The stack that is left has an element and no more guesses than before.
  pub other_choice-Returned :
      (frequency fuel : ℕ) (s : List (StackElement C))
      → 1 ≤ length s
      → size s < fuel
      → Returned frequency s (other_choice set_condition update checked frequency fuel s)
  unfolding other_choice empty
  other_choice-Returned frequency zero s h lt = absurd (omega arith)
  other_choice-Returned frequency (suc fuel) s h lt = elim (ℕ_discrete (size s) 0) [
    | yes e ↦ let t : (size s == 0) ≡ true = ground arith in rw t (bottom-Returned frequency s h e)
    | no ne ↦
        let t : (size s == 0) ≡ false = ground arith in
        let (g, left, found, taken, fewer, some_left) = back_guess-some s (omega arith) in
        let rest = other_choice-Returned frequency fuel left some_left (omega (arith, fewer)) in
        let later = λ (refused : Refused g left).
          Returned-later frequency s g left
            (other_choice set_condition update checked frequency fuel left) taken refused fewer
            rest in
        elim (ℕ_discrete g.cond2 0) [
          | yes z ↦ let u : (g.cond2 == 0) ≡ true = ground arith in rw (t, found, u) (later (inl z))
          | no nz ↦
              let u : (g.cond2 == 0) ≡ false = ground arith in
              elim (try_choice-cases frequency s g left some_left taken fewer nz) [
                | inl (failed, refused) ↦ rw (t, found, u, failed) (later refused)
                | inr (result, found', some', most', end, skipped, kind) ↦
                    rw (t, found, u, found') (result, refl, some', most', end, skipped, kind)
              ]
        ]
  ]
