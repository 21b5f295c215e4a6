-- ===== src/Bitslice/Twobit.antt =====
-- src/bitslice_twobit_condition.h, src/propagate_twobit.h, src/propagate_twobit_output.cpp and `ComputeTwobit` of
-- src/bitslice.h: the two-bit conditions of the parameters of a function. Without
-- DIFFTWOBIT; debug output is not modelled.
pub mod Values
pub mod Found
pub mod Each
pub mod Listed
pub mod Exact
pub mod Moved
pub mod Sorted
use nldtool.Base.{
  ℕ, zero, suc, ◌+◌, ◌-◌, Bool, List, [], ◌∷◌, ◌++◌, map, Option, none, some, bit_and, bit_or,
  bit_xor, ◌==◌, ◌&&◌, ◌||◌, not, ltb, if◌then◌else◌, get_or,
}
use nldtool.Bits.{shl, shr}
use nldtool.Utils.{hamming_weight}
use nldtool.Pair.{Pair}
use nldtool.Bitslice.{BitFunction, params, get_condition, no_pair, loop}
use nldtool.Bitslice.Sorted.{sort_input, identity_perm, CacheBase, cached}

-- Two parameters and the relation of them; the first bit of `c` stands for equal, the second one for opposite.
pub record BitsliceTwobitCondition : Type 0 where
  pub a : ℕ
  pub b : ℕ
  pub c : ℕ

module _ (f : BitFunction) (input : List ℕ) where
  -- The tests of `Initialize` on the parameters `a` and `b`.
  unfoldable pub is_candidate : ℕ → ℕ → Bool
  is_candidate a b =
      let bca = get_condition f input a in
      let bcb = get_condition f input b in
      not (hamming_weight bca == 1)
      && not (hamming_weight bcb == 1)
      && not (f.bitsize a == 1 && f.bitsize b == 1 && not (bca == bcb))

  -- The loops of `Initialize(input)` over `b` and over `a`.
  unfoldable pub twobits_at : ℕ → ℕ → ℕ → List BitsliceTwobitCondition
  twobits_at a zero b = []
  twobits_at a (suc left) b =
      let rest = twobits_at a left (b + 1) in
      if is_candidate a b then record { a = a; b = b; c = 0 } ∷ rest else rest

  unfoldable pub twobits_from : ℕ → ℕ → List BitsliceTwobitCondition
  twobits_from zero a = []
  twobits_from (suc left) a = twobits_at a a 0 ++ twobits_from left (a + 1)

  unfoldable pub initialize : List BitsliceTwobitCondition
  initialize = twobits_from (params f - 1) 1

-- The first loop of `Collect(val)`: what it leaves of the pair of a parameter of `n` bits.
unfoldable pub reduce_pair : ℕ → Pair → Pair
reduce_pair n p =
    let a = p.first in
    let b = p.second in
    let v =
      if bit_and a 1 == bit_and b 1
      then bit_or (bit_and a 1) (shl (bit_and b 1) 1)
      else shl 1 (if ltb b a then 1 else 0) in
    if n == 1 then p else record { first = bit_and v 1; second = bit_and (shr v 1) 1 }

unfoldable pub reduce_from : BitFunction → List Pair → ℕ → List Pair
reduce_from f [] i = []
reduce_from f (p ∷ val) i = reduce_pair (f.bitsize i) p ∷ reduce_from f val (i + 1)

-- The body of the second loop: which bits of `x` and `x'` differ between the parameters, and the relations seen.
unfoldable pub compare_pairs : Pair → Pair → ℕ
compare_pairs p q =
    let va = bit_or (shl p.second 1) p.first in
    let vb = bit_or (shl q.second 1) q.first in bit_and (bit_xor va vb) 3

unfoldable pub update_twobit : List Pair → BitsliceTwobitCondition → BitsliceTwobitCondition
update_twobit val t =
    let ab = compare_pairs (get_or val t.a no_pair) (get_or val t.b no_pair) in
    let seen = bit_or (if not (ab == 3) then 1 else 0) (shl (if not (ab == 0) then 1 else 0) 1) in
    record t { c = bit_or t.c seen }

-- `Collect(val)`.
unfoldable pub collect_twobit :
    BitFunction → List Pair → List BitsliceTwobitCondition → List BitsliceTwobitCondition
collect_twobit f val twobits = map (update_twobit (reduce_from f val 0)) twobits

-- `Finalize(size)`.
unfoldable pub finalize : List BitsliceTwobitCondition → List BitsliceTwobitCondition
finalize [] = []
finalize (twobit ∷ twobits) =
    let t = record twobit { c = bit_and (twobit.c) 3 } in
    let rest = finalize twobits in if t.c == 1 || t.c == 2 then t ∷ rest else rest

-- `Loop<PropagateTwobit<F>>(input)`.
unfoldable pub propagate_twobit : BitFunction → List ℕ → List BitsliceTwobitCondition
propagate_twobit f input = finalize (loop f input (collect_twobit f) (initialize f input))

-- `PropagateTwobitOutput::ResortOutput(perm, len)`.
unfoldable pub resort_twobits : List ℕ → List BitsliceTwobitCondition → List BitsliceTwobitCondition
resort_twobits perm twobits =
    map {A = BitsliceTwobitCondition}
      (λ t. record t { a = get_or perm t.a 0; b = get_or perm t.b 0 }) twobits

-- `ComputeTwobit(input)`.
unfoldable pub compute_twobit :
    (f : BitFunction) (o : CacheBase (List ℕ) (List BitsliceTwobitCondition))
    → List ℕ
    → o.Cache
    → List BitsliceTwobitCondition × o.Cache
compute_twobit f o input cache =
    let sorted = sort_input f input identity_perm in
    let result = cached o (propagate_twobit f) sorted.0 cache in
    (resort_twobits sorted.1 result.0, result.1)
