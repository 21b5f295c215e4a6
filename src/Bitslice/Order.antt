-- ===== src/Bitslice/Order.antt =====
-- `SortInput` and `ResortOutput` of src/bitslice_data.h: the order of the parameters is undone after `Propagate`.
use nldtool.Base.{
  ℕ, zero, suc, ◌+◌, ◌≤◌, ◌<◌, ◌≡◌, arith, ap, sym, ◌∙◌, subst, List, ◌++◌, ◌&&◌, ◌==◌, ltb,
  Bool-cases, length, get_or, inl, inr,
}
use nldtool.Pair.{Pair}
use nldtool.Bitslice.{
  BitFunction, params, num_words, get_condition, set_condition, propagate, no_pair,
}
use nldtool.Bitslice.Conditions.{IsBitFunction}
use nldtool.Bitslice.Collect.{length-set_condition}
use nldtool.Bitslice.Sorted.{
  swap_places, swap_condition, sort_step, sort_inner, sort_outer, sort_input,
}
use nldtool.Bitslice.Solutions.{IsSolution}
use nldtool.Bitslice.Swap.{
  exchanged, exchanged-exchanged, length-swap_places, get_or-swap_places, IsSymmetric,
}
use nldtool.Bitslice.Exchange.{
  propagate-Exchanged, swap_condition-Exchanged, exchanged-lt, bits_kept, Exchanged-back,
  IsSolution-Exchanged,
}

module _ (f : BitFunction) (d : List ℕ) where
  -- The conditions are those of `d` in the order `perm`, as far as `Propagate` goes, and `perm` has each parameter
  -- once, at one of as many bits.
  pub record IsOrder (state : List ℕ × List ℕ) : Type 0 where
    pub long : num_words f ≤ length state.0
    pub places : params f ≤ length state.1
    pub below : (k : ℕ) → k < params f → get_or state.1 k 0 < params f
    pub bits : (k : ℕ) → k < params f → f.bitsize (get_or state.1 k 0) ≡ f.bitsize k
    pub once :
        (k m : ℕ) → k < params f → m < params f → get_or state.1 k 0 ≡ get_or state.1 m 0 → k ≡ m
    pub each : (j : ℕ) → j < params f → (k : ℕ) × (k < params f) × (get_or state.1 k 0 ≡ j)
    pub same :
        (k : ℕ)
        → k < params f
        → get_condition f (propagate f state.0) k
          ≡ get_condition f (propagate f d) (get_or state.1 k 0)
    pub moved :
        (xs : List Pair)
        → IsSolution f d xs
        → (ys : List Pair) × IsSolution f state.0 ys
          × ((k : ℕ)
              → k < params f
              → get_or (ys ++ f.apply ys) k no_pair
                ≡ get_or (xs ++ f.apply xs) (get_or state.1 k 0) no_pair)
    pub back :
        (ys : List Pair)
        → IsSolution f state.0 ys
        → (xs : List Pair) × IsSolution f d xs
          × ((k : ℕ)
              → k < params f
              → get_or (ys ++ f.apply ys) k no_pair
                ≡ get_or (xs ++ f.apply xs) (get_or state.1 k 0) no_pair)
    pub conditions :
        (k : ℕ) → k < params f → get_condition f state.0 k ≡ get_condition f d (get_or state.1 k 0)

module _ (f : BitFunction) (ok : IsBitFunction f) (even : IsSymmetric f) (d : List ℕ) where
  swapped-IsOrder :
      (i j : ℕ) (cur perm : List ℕ)
      → i < j
      → j < params f
      → f.symmetry i ≡ f.symmetry j
      → IsOrder f d (cur, perm)
      → IsOrder f d (swap_condition f cur i j, swap_places 0 perm i j)
  unfolding swap_condition
  swapped-IsOrder i j cur perm lt hj alike w =
      let hi' : i < length perm = omega (arith, w.places) in
      let hj' : j < length perm = omega (arith, w.places) in
      let at = get_or-swap_places 0 perm i j hi' hj' in
      let in_range = exchanged-lt f ok even i j lt hj alike in
      let back = exchanged-exchanged i j in
      record {
        long = omega (
          arith,
          w.long,
          length-set_condition f ok (set_condition f cur i (get_condition f cur j)) j
              (get_condition f cur i),
          length-set_condition f ok cur i (get_condition f cur j),
        );
        places = omega (arith, w.places, length-swap_places 0 perm i j hi' hj');
        below = λ k hk.
            subst (λ q. q < params f) (sym (at k)) (w.below (exchanged i j k) (in_range k hk));
        bits = λ k hk.
            ap f.bitsize (at k)
            ∙ w.bits (exchanged i j k) (in_range k hk)
            ∙ bits_kept f ok even i j lt hj alike k;
        once = λ k m hk hm e.
            sym (back k)
            ∙ ap (exchanged i j) (
                w.once (exchanged i j k) (exchanged i j m) (in_range k hk) (in_range m hm)
                  (sym (at k) ∙ e ∙ at m))
            ∙ back m;
        each = λ q hq.
            let (k, hk, found) = w.each q hq in
            (
              exchanged i j k,
              in_range k hk,
              at (exchanged i j k) ∙ ap (λ x. get_or perm x 0) (back k) ∙ found,
            );
        same = λ k hk.
            propagate-Exchanged f ok even i j lt hj alike (swap_condition f cur i j) cur
              (swap_condition-Exchanged f ok even i j lt hj alike cur w.long) k hk
            ∙ w.same (exchanged i j k) (in_range k hk)
            ∙ ap (get_condition f (propagate f d)) (sym (at k));
        moved = λ xs solution.
            let (ys, there, same) = w.moved xs solution in
            let (zs, last, moved) =
              IsSolution-Exchanged f ok even i j lt hj alike cur (swap_condition f cur i j)
                (Exchanged-back f ok even i j lt hj alike (swap_condition f cur i j) cur
                  (swap_condition-Exchanged f ok even i j lt hj alike cur w.long))
                ys there in
            (
              zs,
              last,
              λ k hk.
                  moved k
                  ∙ same (exchanged i j k) (in_range k hk)
                  ∙ ap (λ q. get_or (xs ++ f.apply xs) q no_pair) (sym (at k)),
            );
        back = λ ys solution.
            let (zs, there, moved) =
              IsSolution-Exchanged f ok even i j lt hj alike (swap_condition f cur i j) cur
                (swap_condition-Exchanged f ok even i j lt hj alike cur w.long) ys solution in
            let (xs, first, same) = w.back zs there in
            (
              xs,
              first,
              λ k hk.
                  ap (λ q. get_or (ys ++ f.apply ys) q no_pair) (sym (back k))
                  ∙ sym (moved (exchanged i j k))
                  ∙ same (exchanged i j k) (in_range k hk)
                  ∙ ap (λ q. get_or (xs ++ f.apply xs) q no_pair) (sym (at k)),
            );
        conditions = λ k hk.
            swap_condition-Exchanged f ok even i j lt hj alike cur w.long k hk
            ∙ w.conditions (exchanged i j k) (in_range k hk)
            ∙ ap (get_condition f d) (sym (at k));
      }

  sort_step-IsOrder :
      (i j : ℕ) (state : List ℕ × List ℕ)
      → i < j
      → j < params f
      → IsOrder f d state
      → IsOrder f d (sort_step f i j state)
  unfolding sort_step
  sort_step-IsOrder i j (cur, perm) lt hj w =
      elim (Bool-cases
        (f.symmetry i == f.symmetry j && ltb (get_condition f cur i) (get_condition f cur j))) [
          | inl t ↦ rw t (swapped-IsOrder i j cur perm lt hj (ground (arith, t)) w)
          | inr e ↦ rw e w
        ]

  sort_inner-IsOrder :
      (left i j : ℕ) (state : List ℕ × List ℕ)
      → i < j
      → j + left ≤ params f
      → IsOrder f d state
      → IsOrder f d (sort_inner f left i j state)
  unfolding sort_inner
  sort_inner-IsOrder zero i j state lt hj w = w
  sort_inner-IsOrder (suc left) i j state lt hj w =
      sort_inner-IsOrder left i (j + 1) (sort_step f i j state) (omega arith) (omega arith)
        (sort_step-IsOrder i j state lt (omega arith) w)

  sort_outer-IsOrder :
      (left i : ℕ) (state : List ℕ × List ℕ)
      → i + left ≤ params f
      → IsOrder f d state
      → IsOrder f d (sort_outer f left i state)
  unfolding sort_outer
  sort_outer-IsOrder zero i state h w = w
  sort_outer-IsOrder (suc left) i state h w =
      sort_outer-IsOrder left (i + 1) (sort_inner f left i (i + 1) state) (omega arith)
        (sort_inner-IsOrder left i (i + 1) state (omega arith) (omega arith) w)

  -- `SortInput` from the order as it is.
  pub sort_input-IsOrder :
      (perm : List ℕ)
      → num_words f ≤ length d
      → params f ≤ length perm
      → ((k : ℕ) → k < params f → get_or perm k 0 ≡ k)
      → IsOrder f d (sort_input f d perm)
  unfolding sort_input
  sort_input-IsOrder perm long places start =
      sort_outer-IsOrder (params f) 0 (d, perm) (omega arith)
        record {
          long = long;
          places = places;
          below = λ k hk. omega (arith, start k hk);
          bits = λ k hk. ap f.bitsize (start k hk);
          once = λ k m hk hm e. sym (start k hk) ∙ e ∙ start m hm;
          each = λ j hj. (j, hj, start j hj);
          same = λ k hk. ap (get_condition f (propagate f d)) (sym (start k hk));
          moved = λ xs solution. (
            xs,
            solution,
            λ k hk. ap (λ q. get_or (xs ++ f.apply xs) q no_pair) (sym (start k hk)),
          );
          back = λ ys solution. (
            ys,
            solution,
            λ k hk. ap (λ q. get_or (ys ++ f.apply ys) q no_pair) (sym (start k hk)),
          );
          conditions = λ k hk. ap (get_condition f d) (sym (start k hk));
        }
