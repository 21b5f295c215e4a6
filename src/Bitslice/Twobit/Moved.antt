-- ===== src/Bitslice/Twobit/Moved.antt =====
-- Two-bit conditions of src/propagate_twobit.h whose parameters change places, as `SortInput` of src/bitslice_data.h does
-- it.
use nldtool.Base.{
  ℕ, ◌<◌, ◌≡◌, ◌≢◌, ◌⊎◌, ◌↔◌, arith, ap₂, sym, ◌∙◌, Bool, List, ◌++◌, get_or, inl, inr,
}
use nldtool.Pair.{Pair}
use nldtool.Bitslice.{BitFunction, params, no_pair}
use nldtool.Bitslice.Order.{IsOrder}
use nldtool.Bitslice.Twobit.{BitsliceTwobitCondition}
use nldtool.Bitslice.Twobit.Values.{same_pair, opposite_pair, shown}
use nldtool.Bitslice.Twobit.Listed.{IsCompared}
use nldtool.Bitslice.Twobit.Found.{Always, value}

-- Two parameters that are compared, shown as equal or as opposite pairs in every solution, in any order.
abbrev pub IsReported : BitFunction → List ℕ → BitsliceTwobitCondition → Type 0
IsReported f d t =
    (t.a < params f)
    × (t.b < params f)
    × (t.a ≢ t.b)
    × IsCompared f d t.a t.b
    × (((t.c ≡ 1) × Always f d same_pair t.a t.b) ⊎ ((t.c ≡ 2) × Always f d opposite_pair t.a t.b))

abbrev pub turned : BitsliceTwobitCondition → BitsliceTwobitCondition
turned t = record t { a = t.b; b = t.a }

-- What is compared and the relations do not depend on the order of the two parameters.
IsCompared-turned :
    (f : BitFunction) (d : List ℕ) (a b : ℕ) → IsCompared f d a b → IsCompared f d b a
IsCompared-turned f d a b (ha, hb, both) = (hb, ha, λ u v. sym (both v u))

Always-turned :
    (f : BitFunction) (d : List ℕ) (related : Pair → Pair → Bool) (a b : ℕ)
    → ((p q : Pair) → related p q ≡ related q p)
    → Always f d related a b
    → Always f d related b a
Always-turned f d related a b even (some_solution, all) =
    (some_solution, λ xs good. even (value f xs b) (value f xs a) ∙ all xs good)

same_turned : (p q : Pair) → same_pair p q ≡ same_pair q p
same_turned p q = ground arith

opposite_turned : (p q : Pair) → opposite_pair p q ≡ opposite_pair q p
opposite_turned p q = ground arith

pub IsReported-turned :
    (f : BitFunction) (d : List ℕ) (t : BitsliceTwobitCondition)
    → IsReported f d t
    → IsReported f d (turned t)
IsReported-turned f d t (ha, hb, ne, cand, related) = (
  hb,
  ha,
  λ e. ne (sym e),
  IsCompared-turned f d t.a t.b cand,
  elim related [
    | inl (one, always) ↦ inl (one, Always-turned f d same_pair t.a t.b same_turned always)
    | inr (two, always) ↦ inr (two, Always-turned f d opposite_pair t.a t.b opposite_turned always)
  ],
)

module _ (f : BitFunction) (d : List ℕ) (state : List ℕ × List ℕ) (w : IsOrder f d state) where
  abbrev pub old : ℕ → ℕ
  old k = get_or state.1 k 0

  pub IsCompared-moved :
      (k m : ℕ)
      → k < params f
      → m < params f
      → IsCompared f state.0 k m ↔ IsCompared f d (old k) (old m)
  IsCompared-moved k m hk hm =
      rw (w.conditions k hk, w.conditions m hm, w.bits k hk, w.bits m hm) (λ h. h, λ h. h)

  value_moved :
      (xs ys : List Pair) (k : ℕ)
      → k < params f
      → get_or (ys ++ f.apply ys) k no_pair ≡ get_or (xs ++ f.apply xs) (old k) no_pair
      → value f ys k ≡ value f xs (old k)
  value_moved xs ys k hk e = ap₂ shown (sym (w.bits k hk)) e

  pub Always-back :
      (related : Pair → Pair → Bool) (k m : ℕ)
      → k < params f
      → m < params f
      → Always f state.0 related k m
      → Always f d related (old k) (old m)
  Always-back related k m hk hm ((ys, solution), all) =
      let (zs, first, same) = w.back ys solution in
      (
        (zs, first),
        λ xs good.
            let (us, there, moved) = w.moved xs good in
            ap₂ related (sym (value_moved xs us k hk (moved k hk)))
              (sym (value_moved xs us m hm (moved m hm)))
            ∙ all us there,
      )

  pub Always-moved :
      (related : Pair → Pair → Bool) (k m : ℕ)
      → k < params f
      → m < params f
      → Always f d related (old k) (old m)
      → Always f state.0 related k m
  Always-moved related k m hk hm ((xs, solution), all) =
      let (us, there, moved) = w.moved xs solution in
      (
        (us, there),
        λ ys good.
            let (zs, first, same) = w.back ys good in
            ap₂ related (value_moved zs ys k hk (same k hk)) (value_moved zs ys m hm (same m hm))
            ∙ all zs first,
      )
