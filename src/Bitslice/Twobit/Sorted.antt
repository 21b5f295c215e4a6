-- ===== src/Bitslice/Twobit/Sorted.antt =====
-- `ComputeTwobit` of src/bitslice.h: with sorted inputs and a cache it reports what holds for the conditions as they are.
use nldtool.Base.{
  ℕ, ◌≤◌, ◌<◌, ◌≡◌, ◌⊎◌, refl, arith, ap, sym, ◌∙◌, subst, List, length, inl, inr, tri,
}
use mathlib.Core.List.{Memᴰ}
use mathlib.Core.List.Memᴰ
use nldtool.Bitslice.{BitFunction, params, num_words}
use nldtool.Bitslice.Conditions.{IsBitFunction}
use nldtool.Bitslice.Sorted.{CacheBase, IsCache, identity_perm, sort_input}
use nldtool.Bitslice.Swap.{IsSymmetric}
use nldtool.Bitslice.Order.{IsOrder, sort_input-IsOrder}
use nldtool.Bitslice.Cached.{cached-Right, identity-at}
use nldtool.Bitslice.Twobit.{
  BitsliceTwobitCondition, propagate_twobit, resort_twobits, compute_twobit,
}
use nldtool.Bitslice.Twobit.Values.{same_pair, opposite_pair}
use nldtool.Bitslice.Twobit.Listed.{twobit_eq}
use nldtool.Bitslice.Twobit.Exact.{IsTwobit, propagate_twobit-exact}
use nldtool.Bitslice.Twobit.Moved.{
  IsReported, turned, IsReported-turned, old, IsCompared-moved, Always-back, Always-moved,
}

module _ (f : BitFunction) (d : List ℕ) (state : List ℕ × List ℕ) (w : IsOrder f d state) where
  abbrev renamed : BitsliceTwobitCondition → BitsliceTwobitCondition
  renamed t = record t { a = old f d state w t.a; b = old f d state w t.b }

  IsTwobit-IsReported :
      (t : BitsliceTwobitCondition) → IsTwobit f state.0 t → IsReported f d (renamed t)
  IsTwobit-IsReported t (below, most, cand, related) =
      let lower : t.b < params f = omega (arith, below, most) in
      (
        w.below t.a most,
        w.below t.b lower,
        λ e. absurd (omega (arith, w.once t.a t.b most lower e, below)),
        (IsCompared-moved f d state w t.a t.b most lower).0 cand,
        elim related [
          | inl (one, always) ↦
              inl (one, Always-back f d state w same_pair t.a t.b most lower always)
          | inr (two, always) ↦
              inr (two, Always-back f d state w opposite_pair t.a t.b most lower always)
        ],
      )

  IsReported-IsTwobit :
      (k m c : ℕ)
      → k < params f
      → m < k
      → IsReported f d (record { a = old f d state w k; b = old f d state w m; c = c })
      → IsTwobit f state.0 (record { a = k; b = m; c = c })
  IsReported-IsTwobit k m c hk below (ha, hb, ne, cand, related) =
      let hm : m < params f = omega arith in
      (
        below,
        hk,
        (IsCompared-moved f d state w k m hk hm).1 cand,
        elim related [
          | inl (one, always) ↦ inl (one, Always-moved f d state w same_pair k m hk hm always)
          | inr (two, always) ↦ inr (two, Always-moved f d state w opposite_pair k m hk hm always)
        ],
      )

  module _ (ok : IsBitFunction f) where
    resorted-IsReported :
        (t : BitsliceTwobitCondition)
        → Memᴰ t (resort_twobits state.1 (propagate_twobit f state.0))
        → IsReported f d t
    unfolding resort_twobits
    resorted-IsReported t m =
        let (s, there, e) = Memᴰ.of_map renamed (propagate_twobit f state.0) m in
        subst (IsReported f d) e
          (IsTwobit-IsReported s ((propagate_twobit-exact f ok state.0 s).0 there))

    listed_at :
        (k m c : ℕ)
        → k < params f
        → m < k
        → IsReported f d (record { a = old f d state w k; b = old f d state w m; c = c })
        → Memᴰ
            (record { a = old f d state w k; b = old f d state w m; c = c })
            (resort_twobits state.1 (propagate_twobit f state.0))
    unfolding resort_twobits
    listed_at k m c hk below r = Memᴰ.map renamed (
        (propagate_twobit-exact f ok state.0 (record { a = k; b = m; c = c })).1
          (IsReported-IsTwobit k m c hk below r))

    IsReported-resorted :
        (t : BitsliceTwobitCondition)
        → IsReported f d t
        → Memᴰ t (resort_twobits state.1 (propagate_twobit f state.0))
          ⊎ Memᴰ (turned t) (resort_twobits state.1 (propagate_twobit f state.0))
    IsReported-resorted t r =
        let (k, hk, ek) = w.each t.a r.0 in
        let (m, hm, em) = w.each t.b r.1 in
        let here : record { a = old f d state w k; b = old f d state w m; c = t.c } ≡ t =
          twobit_eq (record { a = old f d state w k; b = old f d state w m; c = t.c }) t ek em
            refl in
        let r' = subst (IsReported f d) (sym here) r in
        elim (tri m k) [
          | inl lt ↦ inl (Memᴰ.cast (sym here) (listed_at k m t.c hk lt r'))
          | inr (inl e) ↦ absurd (r.2 (sym ek ∙ ap (old f d state w) (sym e) ∙ em))
          | inr (inr gt) ↦ inr (
              Memᴰ.cast (ap turned (sym here)) (
                listed_at m k t.c hm gt (
                  IsReported-turned f d
                    (record { a = old f d state w k; b = old f d state w m; c = t.c }) r')))
        ]

module _ (f : BitFunction) (ok : IsBitFunction f) (even : IsSymmetric f)
    (o : CacheBase (List ℕ) (List BitsliceTwobitCondition))
    (laws : IsCache o (λ key value. value ≡ propagate_twobit f key)) where
  -- For a function of at most 16 parameters that meets IsBitFunction and whose symmetric parameters may be exchanged,
  -- conditions in a container that is long enough, and a cache that has only right values, every two-bit condition
  -- that `ComputeTwobit` gives is of two parameters whose conditions do not have the weight 1 and are the same where both
  -- are bits, and which are shown as equal, or as opposite, pairs of bits in every solution of the conditions as they
  -- are, where there is one; each such two-bit condition is given in one of the two orders of its parameters; and the
  -- cache that is left has only right values. A bit is shown as its two values; a parameter of several bits as the
  -- lowest bits of its two values where these agree, and otherwise as (0, 1) if its first value is greater than the
  -- second, and as (1, 0) if it is less.
  pub compute_twobit-exact :
      (d : List ℕ) (cache : o.Cache)
      → params f ≤ 16
      → num_words f ≤ length d
      → laws.Holds cache
      → ((t : BitsliceTwobitCondition) → Memᴰ t (compute_twobit f o d cache).0 → IsReported f d t)
        × ((t : BitsliceTwobitCondition)
            → IsReported f d t
            → Memᴰ t (compute_twobit f o d cache).0
              ⊎ Memᴰ (turned t) (compute_twobit f o d cache).0)
        × laws.Holds (compute_twobit f o d cache).1
  unfolding compute_twobit
  compute_twobit-exact d cache few long h =
      let w =
        sort_input-IsOrder f ok even d identity_perm long (omega arith)
          (λ k hk. identity-at k (omega arith)) in
      let sorted = sort_input f d identity_perm in
      let (right, still) = cached-Right o (propagate_twobit f) laws sorted.0 cache h in
      let same = ap (resort_twobits sorted.1) right in
      (
        λ t m. resorted-IsReported f d sorted w ok t (subst (Memᴰ t) same m),
        λ t r. elim (IsReported-resorted f d sorted w ok t r) [
          | inl m ↦ inl (subst (Memᴰ t) (sym same) m)
          | inr m ↦ inr (subst (Memᴰ (turned t)) (sym same) m)
        ],
        still,
      )
