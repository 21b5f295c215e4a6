-- ===== src/Bitslice/Cached.antt =====
-- `Compute` of src/bitslice.h: with sorted inputs and a cache it gives what the loop gives for the conditions as they
-- are.
use nldtool.Base.{
  ℕ, zero, suc, ◌+◌, ◌≤◌, ◌<◌, ◌≡◌, refl, arith, ap, sym, ◌∙◌, false, List, ◌++◌, length-replicate,
  ◌==◌, Option, none, some, length, get_or, tabulate-agree,
}
use native.Mathlib.Decide.{ℕ_discrete}
use nldtool.Bitslice.{
  BitFunction, params, num_words, get_condition, set_condition, propagate, no_conditions, collect,
}
use nldtool.Bitslice.Conditions.{IsBitFunction}
use nldtool.Bitslice.Collect.{length-collect, length-set_condition}
use nldtool.Bitslice.Sorted.{
  sort_input, resort_from, resort_output, CacheBase, IsCache, identity_perm, cached, compute,
}
use nldtool.Bitslice.Swap.{IsSymmetric}
use nldtool.Bitslice.Loop.{loop-keeps}
use nldtool.Bitslice.Moved.{get-set_copied, get_set_copy}
use nldtool.Bitslice.Order.{IsOrder, sort_input-IsOrder}

module _ (f : BitFunction) (ok : IsBitFunction f) (d : List ℕ) (state : List ℕ × List ℕ)
    (w : IsOrder f d state) (tmp : List ℕ) where
  -- A parameter that no later step of the loop writes.
  resort-before :
      (left i k : ℕ) (cur : List ℕ)
      → num_words f ≤ length cur
      → i + left ≤ params f
      → k < i
      → get_condition f (resort_from f left i tmp state.1 cur) (get_or state.1 k 0)
        ≡ get_condition f cur (get_or state.1 k 0)
  unfolding resort_from
  resort-before zero i k cur long h lt = refl
  resort-before (suc left) i k cur long h lt =
      let hi : i < params f = omega arith in
      let hk : k < params f = omega arith in
      let m = get_or state.1 i 0 in
      let c = get_condition f tmp i in
      let next = set_condition f cur m c in
      let other : (get_or state.1 k 0 == m) ≡ false =
        let apart : ¬ (get_or state.1 k 0 ≡ m) =
          λ e. absurd (omega (arith, w.once k i hk hi e, lt)) in
        ground (arith, apart) in
      resort-before left (i + 1) k next (omega (arith, length-set_condition f ok cur m c))
        (omega arith) (omega arith)
      ∙ get-set_copied f ok cur tmp m i long (w.below i hi) hi (w.bits i hi) (get_or state.1 k 0)
          (w.below k hk)
      ∙ rw other refl

  -- The loop writes each condition to its old place.
  resort-after :
      (left i k : ℕ) (cur : List ℕ)
      → num_words f ≤ length cur
      → i + left ≤ params f
      → i ≤ k
      → k < i + left
      → get_condition f (resort_from f left i tmp state.1 cur) (get_or state.1 k 0)
        ≡ get_condition f tmp k
  unfolding resort_from
  resort-after zero i k cur long h le lt = absurd (omega arith)
  resort-after (suc left) i k cur long h le lt =
      let hi : i < params f = omega arith in
      let m = get_or state.1 i 0 in
      let c = get_condition f tmp i in
      let next = set_condition f cur m c in
      let long' : num_words f ≤ length next = omega (arith, length-set_condition f ok cur m c) in
      elim (ℕ_discrete k i) [
        | yes e ↦ rw e (
            resort-before left (i + 1) i next long' (omega arith) (omega arith)
            ∙ get_set_copy f ok cur tmp m i long (w.below i hi) hi (w.bits i hi))
        | no ne ↦ resort-after left (i + 1) k next long' (omega arith) (omega arith) (omega arith)
      ]

length-propagate :
    (f : BitFunction) (ok : IsBitFunction f) (d : List ℕ) → length (propagate f d) ≡ num_words f
unfolding propagate no_conditions
length-propagate f ok d =
    loop-keeps f ok d (λ val output. collect f output val 0) (λ s. length s ≡ num_words f)
      (λ xs s solution e. length-collect f ok s (xs ++ f.apply xs) 0 ∙ e) (no_conditions f)
      (length-replicate {A = ℕ} (num_words f) 0)

-- The order as it is.
pub identity-at : (k : ℕ) → k < 16 → get_or identity_perm k 0 ≡ k
identity-at k lt = tabulate-agree 16 (λ n. get_or identity_perm n 0) (λ n. n) refl k lt

module _ {D : Type 0} (o : CacheBase (List ℕ) D) (run : List ℕ → D)
    (laws : IsCache o (λ key value. value ≡ run key)) where
  found-Right :
      (found : Option D) (input : List ℕ) (cache : o.Cache)
      → (o.find input cache).0 ≡ found
      → laws.Holds cache
      → ((cached o run input cache).0 ≡ run input) × laws.Holds (cached o run input cache).1
  unfolding cached
  found-Right (some value) input cache e h =
      rw (e, cached) (laws.find-Right input value cache h e, laws.find-Holds input cache h)
  found-Right none input cache e h =
      rw (e, cached)
        (
          refl,
          laws.insert-Holds input (run input) (o.find input cache).1 (laws.find-Holds input cache h)
              refl,
        )

  pub cached-Right :
      (input : List ℕ) (cache : o.Cache)
      → laws.Holds cache
      → ((cached o run input cache).0 ≡ run input) × laws.Holds (cached o run input cache).1
  cached-Right input cache h = found-Right (o.find input cache).0 input cache refl h

module _ (f : BitFunction) (ok : IsBitFunction f) (even : IsSymmetric f)
    (o : CacheBase (List ℕ) (List ℕ))
    (laws : IsCache o (λ key value. value ≡ propagate f key)) where
  -- For a function of at most 16 parameters that meets IsBitFunction and whose symmetric parameters may be exchanged,
  -- conditions in a container that is long enough, and a cache that has only right values, `Compute` gives each
  -- parameter the condition that the loop gives it for the conditions as they are, and leaves a cache that has only
  -- right values.
  pub compute-propagate :
      (d : List ℕ) (cache : o.Cache)
      → params f ≤ 16
      → num_words f ≤ length d
      → laws.Holds cache
      → ((j : ℕ)
          → j < params f
          → get_condition f (compute f o d cache).0 j ≡ get_condition f (propagate f d) j)
        × laws.Holds (compute f o d cache).1
  unfolding compute resort_output
  compute-propagate d cache few long h =
      let w =
        sort_input-IsOrder f ok even d identity_perm long (omega arith)
          (λ k hk. identity-at k (omega arith)) in
      let sorted = sort_input f d identity_perm in
      let (right, still) = cached-Right o (propagate f) laws sorted.0 cache h in
      let out = (cached o (propagate f) sorted.0 cache).0 in
      (
        λ j hj.
            let (k, hk, found) = w.each j hj in
            ap (get_condition f (resort_from f (params f) 0 out sorted.1 out)) (sym found)
            ∙ resort-after f ok d sorted w out (params f) 0 k out
                (omega (arith, ap length right, length-propagate f ok sorted.0)) (omega arith)
                (omega arith) (omega arith)
            ∙ ap (λ q. get_condition f q k) right
            ∙ w.same k hk
            ∙ ap (get_condition f (propagate f d)) found,
        still,
      )
