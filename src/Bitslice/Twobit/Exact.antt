-- ===== src/Bitslice/Twobit/Exact.antt =====
-- `Loop<PropagateTwobit<F>>` of src/bitslice.h and src/propagate_twobit.h against a description without loops.
use nldtool.Base.{
  ℕ, ◌+◌, ◌-◌, ◌≤◌, ◌<◌, ◌≡◌, ◌↔◌, ◌⊎◌, refl, arith, ap, ap₂, sym, ◌∙◌, subst, Bool, true, List,
  map, ◌==◌, ◌||◌, inl, inr, bit_and,
}
use native.Mathlib.Decide.{ℕ_discrete}
use mathlib.Core.List.{Memᴰ}
use mathlib.Core.List.Memᴰ
use nldtool.Pair.{Pair}
use nldtool.Bitslice.{BitFunction, params, loop}
use nldtool.Bitslice.Conditions.{IsBitFunction}
use nldtool.Bitslice.Twobit.{
  BitsliceTwobitCondition, is_candidate, initialize, reduce_from, update_twobit, collect_twobit,
  finalize, propagate_twobit,
}
use nldtool.Bitslice.Twobit.Values.{same_pair, opposite_pair}
use nldtool.Bitslice.Twobit.Found.{Always, found-Good, found-same, found-opposite}
use nldtool.Bitslice.Twobit.Each.{loop-map}
use nldtool.Bitslice.Twobit.Listed.{
  IsCompared, is_candidate-IsCompared, twobit_eq, and_three, Started, masked, finalize-Memᴰ,
  Memᴰ-finalize, twobits_from-Memᴰ, Memᴰ-twobits_from,
}

-- A two-bit condition that is so: two parameters that are compared, shown as equal or as opposite pairs in every
-- solution.
abbrev pub IsTwobit : BitFunction → List ℕ → BitsliceTwobitCondition → Type 0
IsTwobit f d t =
    (t.b < t.a)
    × (t.a < params f)
    × IsCompared f d t.a t.b
    × (((t.c ≡ 1) × Always f d same_pair t.a t.b) ⊎ ((t.c ≡ 2) × Always f d opposite_pair t.a t.b))

module _ (f : BitFunction) (ok : IsBitFunction f) (d : List ℕ) where
  each_loop : BitsliceTwobitCondition → BitsliceTwobitCondition
  each_loop = loop f d (λ val t. update_twobit (reduce_from f val 0) t)

  looped : loop f d (collect_twobit f) (initialize f d) ≡ map each_loop (initialize f d)
  unfolding collect_twobit each_loop
  looped = loop-map f d (λ val t. update_twobit (reduce_from f val 0) t) ok (initialize f d)

  -- What `Finalize` sees of a two-bit condition that `Initialize` made.
  kept :
      (start t : BitsliceTwobitCondition)
      → Started f d start
      → t ≡ masked (each_loop start)
      → (t.a ≡ start.a) × (t.b ≡ start.b) × (t.c ≡ (each_loop start).c)
  unfolding each_loop
  kept start t (below, most, cand, none) e =
      let lower : start.b < params f = omega (arith, below, most) in
      let (ea, eb, lt) = found-Good f ok d start most lower none in
      (
        ap (λ q. q.a) e ∙ ea,
        ap (λ q. q.b) e ∙ eb,
        ap (λ q. q.c) e ∙ and_three ((each_loop start).c) lt,
      )

  Started-IsTwobit :
      (start t : BitsliceTwobitCondition)
      → Started f d start
      → t ≡ masked (each_loop start)
      → (t.c == 1 || t.c == 2) ≡ true
      → IsTwobit f d t
  unfolding each_loop
  Started-IsTwobit start t started e right =
      let (below, most, cand, none) = started in
      let (ea, eb, ec) = kept start t started e in
      let lower : start.b < params f = omega (arith, below, most) in
      let here = λ (related : Pair → Pair → Bool) (always : Always f d related start.a start.b).
        let moved : Always f d related t.a start.b =
          subst (λ x. Always f d related x start.b) (sym ea) always in
        subst (λ y. Always f d related t.a y) (sym eb) moved in
      (
        omega (arith, below, ea, eb),
        omega (arith, most, ea),
        (is_candidate-IsCompared f d t.a t.b).0 (ap₂ (is_candidate f d) ea eb ∙ cand),
        elim (ℕ_discrete t.c 1) [
          | yes one ↦
              inl (one, here same_pair ((found-same f ok d start most lower none).0 (sym ec ∙ one)))
          | no ne ↦
              let two : t.c ≡ 2 = ground (arith, right, ne) in
              inr (
                two,
                here opposite_pair ((found-opposite f ok d start most lower none).0 (sym ec ∙ two)),
              )
        ],
      )

  listed-IsTwobit : (t : BitsliceTwobitCondition) → Memᴰ t (propagate_twobit f d) → IsTwobit f d t
  unfolding propagate_twobit initialize
  listed-IsTwobit t m =
      let m' = rw looped at m in
      let (s, there, masked_s, right) = finalize-Memᴰ t (map each_loop (initialize f d)) m' in
      let (start, first, ends) = Memᴰ.of_map each_loop (initialize f d) there in
      let room : 1 + (params f - 1) ≤ params f = omega (arith, ok.some_input) in
      Started-IsTwobit start t (twobits_from-Memᴰ f d start (params f - 1) 1 room first)
        (masked_s ∙ ap masked (sym ends)) right

  IsTwobit-listed : (t : BitsliceTwobitCondition) → IsTwobit f d t → Memᴰ t (propagate_twobit f d)
  unfolding propagate_twobit initialize each_loop
  IsTwobit-listed t (below, most, compared, related) =
      let cand = (is_candidate-IsCompared f d t.a t.b).1 compared in
      let start : BitsliceTwobitCondition = record t { c = 0 } in
      let lower : t.b < params f = omega (arith, below, most) in
      let started : Started f d start = (below, most, cand, refl) in
      let code : ((each_loop start).c ≡ t.c) × ((t.c == 1 || t.c == 2) ≡ true) = elim related [
        | inl (one, same) ↦
            ((found-same f ok d start most lower refl).1 same ∙ sym one, ground (arith, one))
        | inr (two, opposite) ↦ (
          (found-opposite f ok d start most lower refl).1 opposite ∙ sym two,
          ground (arith, two),
        )
      ] in
      let (ea, eb, ec) = kept start (masked (each_loop start)) started refl in
      let whole : t ≡ masked (each_loop start) =
        twobit_eq t (masked (each_loop start)) (sym ea) (sym eb) (sym (code.0) ∙ sym ec) in
      let first =
        Memᴰ-twobits_from f d start (params f - 1) 1 (omega (arith, below)) (omega (arith, most))
          started in
      let right : (bit_and ((each_loop start).c) 3 == 1 || bit_and ((each_loop start).c) 3 == 2)
          ≡ true =
        ap (λ q. q == 1 || q == 2) (ec ∙ code.0) ∙ code.1 in
      let last =
        Memᴰ-finalize (each_loop start) (map each_loop (initialize f d)) (Memᴰ.map each_loop first)
          right in
      subst (λ l. Memᴰ t (finalize l)) (sym looped) (Memᴰ.cast whole last)

  -- For a function that meets IsBitFunction, the two-bit conditions that `PropagateTwobit` gives are exactly those of
  -- two parameters, the first one behind the second, whose conditions do not have the weight 1 and are the same where
  -- both are bits, and which are shown as the same pair of bits in every solution of the conditions, with the number
  -- 1, or as opposite pairs in every solution, with the number 2, where there is a solution. A bit is shown as its two
  -- values; a parameter of several bits as the lowest bits of its two values where these agree, and otherwise as (0, 1)
  -- if its first value is greater than the second, and as (1, 0) if it is less.
  pub propagate_twobit-exact :
      (t : BitsliceTwobitCondition) → Memᴰ t (propagate_twobit f d) ↔ IsTwobit f d t
  propagate_twobit-exact t = (listed-IsTwobit t, IsTwobit-listed t)
