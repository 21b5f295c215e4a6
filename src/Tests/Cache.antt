-- ===== src/Tests/Cache.antt =====
-- src/dynamic_cache.h with numbers for keys and values.
use nldtool.Base.{ℕ, ◌≡◌, refl, arith, Bool, some, none, [], ◌∷◌, ◌==◌, if◌then◌else◌}
use nldtool.DynamicCache.Bounds.{IsSound, occurs, keys, cache-IsSound}
use nldtool.DynamicCache.{DynamicCache, insert, find_entry}
use nldtool.DynamicCache.Recent.{or_else, is_some, others, remaining, recent, find-insert}

abbrev same_key : ℕ → ℕ → Bool
same_key a b = a == b

-- A full cache.
abbrev full : DynamicCache ℕ ℕ
full = record { entries = (1, 10) ∷ (2, 20) ∷ []; capacity = 2; lru = 2 ∷ 1 ∷ [] }

full-IsSound : IsSound same_key full
unfolding occurs keys
full-IsSound = record {
  bounded = omega arith;
  counted = refl;
  once = λ k. ground arith;
  listed = λ k. ground arith;
}

cache-IsSound_example :
    IsSound same_key (insert same_key 3 30 full)
    × (occurs same_key 3 (keys (insert same_key 3 30 full).entries) ≡ 1)
    × ((insert same_key 3 30 full).capacity ≡ full.capacity)
    × IsSound same_key (find_entry same_key 3 full).1
cache-IsSound_example =
    cache-IsSound same_key (λ a b h. ground (arith, h)) (λ a. ground arith) 3 30 full full-IsSound
      (omega arith)

-- Key 1 is given up for key 3.
find-insert_example :
    ((find_entry same_key 1 (insert same_key 3 30 full)).0
      ≡ or_else (remaining same_key full 1) (if same_key 3 1 then some 30 else none))
    × ((insert same_key 3 30 full).lru ≡ (
        if is_some (remaining same_key full 3)
        then recent same_key full
        else 3 ∷ recent same_key full))
    × ((find_entry same_key 1 full).1.lru ≡ (
        if is_some (find_entry same_key 1 full).0
        then 1 ∷ others same_key 1 full.lru
        else full.lru))
find-insert_example =
    find-insert same_key (λ a b h. ground (arith, h)) (λ a. ground arith) 3 1 30 full full-IsSound
      (omega arith)
