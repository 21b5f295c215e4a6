-- ===== src/Bitslice/Loop.antt =====
-- `Loop<A>` of src/bitslice.h against a description without indices: what a test on the state of the action sees at the
-- end.
use nldtool.Base.{
  ℕ, zero, suc, ◌+◌, ◌≤◌, ◌≡◌, ◌↔◌, ◌⊎◌, arith, ap, sym, ◌∙◌, Bool, true, false, List, ◌++◌, ◌&&◌,
  ◌||◌, Bool-cases, replicate, inl, inr,
}
use native.Mathlib.Decide.{ℕ_discrete}
use nldtool.Pair.{Pair}
use nldtool.Bitslice.{
  BitFunction, is_pair, chosen, increment, try_choice, choice_loop, count_choices, all_filled, loop,
}
use nldtool.Bitslice.Conditions.{IsBitFunction}
use nldtool.Bitslice.Counter.{in_range, rank, product, rank-injective, rank-lt, rank-zeros}
use nldtool.Bitslice.Filled.{increment-some, in_range-filled, count-product}
use nldtool.Bitslice.Solutions.{
  IsSolution, pairs, sizes, choice-IsSolution, IsSolution-choice, some_size, zeros_start,
}

-- `act` keeps `Good` at every solution.
abbrev pub Keeps :
    {S : Type 0} (f : BitFunction) → List ℕ → (List Pair → S → S) → (S → Type 0) → Type 0
Keeps {S} f d act Good =
    (xs : List Pair) (s : S) → IsSolution f d xs → Good s → Good (act (xs ++ f.apply xs) s)

-- At a solution `act` makes `seen` true if the solution has the mark, and keeps it else.
abbrev pub Sees :
    {S : Type 0} (f : BitFunction)
    → List ℕ
    → (List Pair → S → S)
    → (S → Type 0)
    → (S → Bool)
    → (List Pair → Bool)
    → Type 0
Sees {S} f d act Good seen mark =
    (xs : List Pair) (s : S)
    → IsSolution f d xs
    → Good s
    → seen (act (xs ++ f.apply xs) s) ≡ (seen s || mark (xs ++ f.apply xs))

module _ (f : BitFunction) (ok : IsBitFunction f) (d : List ℕ) where
  module _ {S : Type 0} (act : List Pair → S → S) (Good : S → Type 0)
      (keeps : Keeps f d act Good) where
    try_choice-keeps :
        (indices : List ℕ) (s : S)
        → in_range indices (sizes f ok d) ≡ true
        → Good s
        → Good (try_choice f d act (pairs f ok d) indices s)
    unfolding try_choice
    try_choice-keeps indices s inside g =
        let xs = chosen f (pairs f ok d) indices in
        elim (Bool-cases (is_pair f d (f.apply xs) f.inputs)) [
          | inl t ↦ rw t (keeps xs s (choice-IsSolution f ok d indices inside t) g)
          | inr e ↦ rw e g
        ]

    choice_loop-keeps :
        (fuel : ℕ) (indices : List ℕ) (s : S)
        → in_range indices (sizes f ok d) ≡ true
        → Good s
        → Good (choice_loop f d act fuel (pairs f ok d) indices s)
    unfolding choice_loop
    choice_loop-keeps zero indices s inside g = g
    choice_loop-keeps (suc fuel) indices s inside g =
        let now = try_choice-keeps indices s inside g in
        let tried = try_choice f d act (pairs f ok d) indices s in
        elim (increment-some indices (sizes f ok d) inside (some_size f ok d)) [
          | inl (t, there, up) ↦
              rw t (choice_loop-keeps fuel (increment indices (sizes f ok d)).0 tried there now)
          | inr (e, last) ↦ rw e now
        ]

    pub loop-keeps : (start : S) → Good start → Good (loop f d act start)
    unfolding loop
    loop-keeps start g = elim (Bool-cases (all_filled f (pairs f ok d))) [
      | inl t ↦ rw t (
          choice_loop-keeps (count_choices (pairs f ok d)) (replicate f.inputs 0) start
            (zeros_start f ok d t) g)
      | inr e ↦ rw e g
    ]

    module _ (seen : S → Bool) (mark : List Pair → Bool) (sees : Sees f d act Good seen mark) where
      -- The choice passes and has the mark.
      abbrev hit : List ℕ → Bool
      hit indices =
          let xs = chosen f (pairs f ok d) indices in
          let ys = f.apply xs in is_pair f d ys f.inputs && mark (xs ++ ys)

      try_choice-seen :
          (indices : List ℕ) (s : S)
          → in_range indices (sizes f ok d) ≡ true
          → Good s
          → seen (try_choice f d act (pairs f ok d) indices s) ≡ (seen s || hit indices)
      unfolding try_choice
      try_choice-seen indices s inside g =
          let xs = chosen f (pairs f ok d) indices in
          elim (Bool-cases (is_pair f d (f.apply xs) f.inputs)) [
            | inl t ↦ rw t (sees xs s (choice-IsSolution f ok d indices inside t) g)
            | inr e ↦ rw e (ground arith)
          ]

      -- What is seen stays seen.
      loop_stays :
          (fuel : ℕ) (indices : List ℕ) (s : S)
          → in_range indices (sizes f ok d) ≡ true
          → Good s
          → seen s ≡ true
          → seen (choice_loop f d act fuel (pairs f ok d) indices s) ≡ true
      unfolding choice_loop
      loop_stays zero indices s inside g h = h
      loop_stays (suc fuel) indices s inside g h =
          let tried = try_choice f d act (pairs f ok d) indices s in
          let good = try_choice-keeps indices s inside g in
          let still : seen tried ≡ true = ground (arith, try_choice-seen indices s inside g, h) in
          elim (increment-some indices (sizes f ok d) inside (some_size f ok d)) [
            | inl (t, there, up) ↦
                rw t (loop_stays fuel (increment indices (sizes f ok d)).0 tried there good still)
            | inr (e, last) ↦ rw e still
          ]

      -- With fuel enough, a choice that comes later is seen.
      loop_finds :
          (fuel : ℕ) (indices target : List ℕ) (s : S)
          → in_range indices (sizes f ok d) ≡ true
          → Good s
          → in_range target (sizes f ok d) ≡ true
          → rank indices (sizes f ok d) ≤ rank target (sizes f ok d)
          → product (sizes f ok d) ≤ fuel + rank indices (sizes f ok d)
          → hit target ≡ true
          → seen (choice_loop f d act fuel (pairs f ok d) indices s) ≡ true
      unfolding choice_loop
      loop_finds zero indices target s inside g there le enough h =
          absurd (omega (arith, rank-lt target (sizes f ok d) there, le, enough))
      loop_finds (suc fuel) indices target s inside g there le enough h =
          let tried = try_choice f d act (pairs f ok d) indices s in
          let now = try_choice-seen indices s inside g in
          let good = try_choice-keeps indices s inside g in
          let below = rank-lt target (sizes f ok d) there in
          elim (ℕ_discrete (rank indices (sizes f ok d)) (rank target (sizes f ok d))) [
            | yes e ↦
                let same = rank-injective indices target (sizes f ok d) inside there e in
                let found : seen tried ≡ true =
                  now ∙ ap (λ x. seen s || hit x) same ∙ ground (arith, h) in
                elim (increment-some indices (sizes f ok d) inside (some_size f ok d)) [
                  | inl (t, next, up) ↦
                      rw t
                        (loop_stays fuel (increment indices (sizes f ok d)).0 tried next good found)
                  | inr (e', last) ↦ rw e' found
                ]
            | no ne ↦ elim (increment-some indices (sizes f ok d) inside (some_size f ok d)) [
              | inl (t, next, up) ↦ rw t (
                  loop_finds fuel (increment indices (sizes f ok d)).0 target tried next good there
                    (omega (arith, up, le, ne)) (omega (arith, up, enough)) h)
              | inr (e', last) ↦ absurd (omega (arith, last, below, le, ne))
            ]
          ]

      step_back :
          (indices : List ℕ) (s : S)
          → in_range indices (sizes f ok d) ≡ true
          → (seen s || hit indices) ≡ true
          → (seen s ≡ true)
            ⊎ ((target : List ℕ) × (in_range target (sizes f ok d) ≡ true) × (hit target ≡ true))
      step_back indices s inside h = elim (Bool-cases (seen s)) [
        | inl t ↦ inl t
        | inr e ↦ inr (indices, inside, ground (arith, h, e))
      ]

      -- What is seen was there before or comes from a choice.
      loop_sound :
          (fuel : ℕ) (indices : List ℕ) (s : S)
          → in_range indices (sizes f ok d) ≡ true
          → Good s
          → seen (choice_loop f d act fuel (pairs f ok d) indices s) ≡ true
          → (seen s ≡ true)
            ⊎ ((target : List ℕ) × (in_range target (sizes f ok d) ≡ true) × (hit target ≡ true))
      unfolding choice_loop
      loop_sound zero indices s inside g h = inl h
      loop_sound (suc fuel) indices s inside g h =
          let tried = try_choice f d act (pairs f ok d) indices s in
          let now = try_choice-seen indices s inside g in
          let good = try_choice-keeps indices s inside g in
          let back = λ (q : seen tried ≡ true). step_back indices s inside (sym now ∙ q) in
          elim (increment-some indices (sizes f ok d) inside (some_size f ok d)) [
            | inl (t, next, up) ↦
                let later = rw t at h in
                elim (loop_sound fuel (increment indices (sizes f ok d)).0 tried next good later) [
                  | inl q ↦ back q
                  | inr r ↦ inr r
                ]
            | inr (e, last) ↦ back (rw e at h)
          ]

      -- From a start where nothing is seen, the loop ends with it seen exactly if a solution has the mark.
      pub loop-seen :
          (start : S)
          → Good start
          → seen start ≡ false
          → (seen (loop f d act start) ≡ true)
            ↔ ((xs : List Pair) × IsSolution f d xs × (mark (xs ++ f.apply xs) ≡ true))
      unfolding loop
      loop-seen start g blank = elim (Bool-cases (all_filled f (pairs f ok d))) [
        | inl t ↦ rw t (
          λ h.
              elim (loop_sound (count_choices (pairs f ok d)) (replicate f.inputs 0) start
                (zeros_start f ok d t) g h) [
                  | inl q ↦ absurd (ground (arith, blank, q))
                  | inr (target, inside, found) ↦ (
                    chosen f (pairs f ok d) target,
                    choice-IsSolution f ok d target inside (ground (arith, found)),
                    ground (arith, found),
                  )
                ],
          λ (xs, solution, marked).
              let (target, inside, same, passes) = IsSolution-choice f ok d xs solution in
              let found : hit target ≡ true = rw same (ground (arith, passes, marked)) in
              loop_finds (count_choices (pairs f ok d)) (replicate f.inputs 0) target start
                (zeros_start f ok d t) g inside (omega (arith, rank-zeros f.inputs (sizes f ok d)))
                (omega (arith, count-product (pairs f ok d))) found,
        )
        | inr e ↦ rw e (
          λ h. absurd (ground (arith, blank, h)),
          λ (xs, solution, marked).
              let (target, inside, same, passes) = IsSolution-choice f ok d xs solution in
              absurd (ground (arith, e, in_range-filled f (pairs f ok d) target inside)),
        )
      ]
