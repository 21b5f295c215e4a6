-- ===== src/Bitslice/Sorted.antt =====
-- `SwapCondition`, `SortInput` and `ResortOutput` of src/bitslice_data.h, and `Compute` of src/bitslice.h. The cache of
-- `Compute` is any that keeps to the interface of src/cache_base.h: `CacheBase` is a record of operations.
use nldtool.Base.{
  ℕ, zero, suc, ◌+◌, ◌≡◌, List, [], ◌∷◌, Option, none, some, ◌&&◌, ◌==◌, ltb, if◌then◌else◌, get_or,
  set,
}
use nldtool.Bitslice.{BitFunction, params, get_condition, set_condition, propagate}

-- `std::swap` of two places of an array.
unfoldable pub swap_places {ℓ} : {A : Type ℓ} → A → List A → ℕ → ℕ → List A
swap_places d xs i j = set (set xs i (get_or xs j d)) j (get_or xs i d)

module _ (f : BitFunction) where
  unfoldable pub swap_condition : List ℕ → ℕ → ℕ → List ℕ
  swap_condition conditions a b =
      let aa = get_condition f conditions a in
      let bb = get_condition f conditions b in
      set_condition f (set_condition f conditions a bb) b aa

  -- The body of the loops of `SortInput(perm)`, on the conditions and `perm`.
  unfoldable pub sort_step : ℕ → ℕ → List ℕ × List ℕ → List ℕ × List ℕ
  sort_step i j (conditions, perm) =
      if f.symmetry i == f.symmetry j
        && ltb (get_condition f conditions i) (get_condition f conditions j)
      then (swap_condition conditions i j, swap_places 0 perm i j)
      else (conditions, perm)

  unfoldable pub sort_inner : ℕ → ℕ → ℕ → List ℕ × List ℕ → List ℕ × List ℕ
  sort_inner zero i j state = state
  sort_inner (suc left) i j state = sort_inner left i (j + 1) (sort_step i j state)

  unfoldable pub sort_outer : ℕ → ℕ → List ℕ × List ℕ → List ℕ × List ℕ
  sort_outer zero i state = state
  sort_outer (suc left) i state = sort_outer left (i + 1) (sort_inner left i (i + 1) state)

  unfoldable pub sort_input : List ℕ → List ℕ → List ℕ × List ℕ
  sort_input conditions perm = sort_outer (params f) 0 (conditions, perm)

  -- `ResortOutput(perm, len)`: the loop from `i` on, where `tmp` is the object before.
  unfoldable pub resort_from : ℕ → ℕ → List ℕ → List ℕ → List ℕ → List ℕ
  resort_from zero i tmp perm conditions = conditions
  resort_from (suc left) i tmp perm conditions =
      resort_from left (i + 1) tmp perm
        (set_condition f conditions (get_or perm i 0) (get_condition f tmp i))

  unfoldable pub resort_output : List ℕ → List ℕ → ℕ → List ℕ
  resort_output conditions perm len = resort_from len 0 conditions perm conditions

-- The part of `CacheBase` that `Compute` calls.
pub record CacheBase (K D : Type 0) : Type 1 where
  pub Cache : Type 0
  pub find : K → Cache → Option D × Cache
  pub insert : K → D → Cache → Cache

-- What the cache has is so for each of its pairs: `Find` returns only such values, `Find` and `Insert` keep to it.
pub record IsCache {K D : Type 0} (o : CacheBase K D) (Right : K → D → Type 0) : Type 1 where
  pub Holds : o.Cache → Type 0
  pub find-Right :
      (key : K) (value : D) (c : o.Cache)
      → Holds c
      → (o.find key c).0 ≡ some value
      → Right key value
  pub find-Holds : (key : K) (c : o.Cache) → Holds c → Holds (o.find key c).1
  pub insert-Holds :
      (key : K) (value : D) (c : o.Cache) → Holds c → Right key value → Holds (o.insert key value c)

-- `perm`, as `Compute` starts it.
abbrev pub identity_perm : List ℕ
identity_perm = 0 ∷ 1 ∷ 2 ∷ 3 ∷ 4 ∷ 5 ∷ 6 ∷ 7 ∷ 8 ∷ 9 ∷ 10 ∷ 11 ∷ 12 ∷ 13 ∷ 14 ∷ 15 ∷ []

-- What the cache has for the input, or else what `run` gives for it, with the cache after it.
unfoldable pub cached :
    {D : Type 0} (o : CacheBase (List ℕ) D) → (List ℕ → D) → List ℕ → o.Cache → D × o.Cache
cached o run input cache = elim ((o.find input cache).0) [
  | some found ↦ (found, (o.find input cache).1)
  | none ↦ let output = run input in (output, o.insert input output (o.find input cache).1)
]

-- `Compute(input)`.
unfoldable pub compute :
    (f : BitFunction) (o : CacheBase (List ℕ) (List ℕ)) → List ℕ → o.Cache → List ℕ × o.Cache
compute f o input cache =
    let sorted = sort_input f input identity_perm in
    let result = cached o (propagate f) sorted.0 cache in
    (resort_output f result.0 sorted.1 (params f), result.1)
