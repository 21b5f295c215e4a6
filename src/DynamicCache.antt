-- ===== src/DynamicCache.antt =====
-- src/dynamic_cache.h: a map of bounded size that gives up the key not used for the longest time. `std::unordered_map`
-- is a list of keys and values, and the list iterator that the map keeps for a key is the key's first place in
-- `lru`: an entry only ever moves to the front. Reading and writing dump files is not modelled.
pub mod Right
pub mod Bounds
pub mod Recent
use nldtool.Base.{
  ℕ, ◌+◌, ◌<◌, ◌≡◌, refl, arith, Bool, false, List, [], ◌∷◌, Option, none, some, ◌==◌,
  if◌then◌else◌, length, ◌∙◌,
}

pub record DynamicCache (K D : Type 0) : Type 0 where
  pub entries : List (K × D)
  pub capacity : ℕ
  pub lru : List K

module _ {K : Type 0} where
  -- `lru_data_.back()` with the list without it.
  unfoldable pub split_back : K → List K → List K × K
  split_back first [] = ([], first)
  split_back first (next ∷ rest) = let later = split_back next rest in (first ∷ later.0, later.1)

module _ {K : Type 0} (same : K → K → Bool) where
  unfoldable pub remove_first : K → List K → List K
  remove_first key [] = []
  remove_first key (k ∷ rest) = if same k key then rest else k ∷ remove_first key rest

module _ {K D : Type 0} (same : K → K → Bool) where
  unfoldable pub lookup : K → List (K × D) → Option D
  lookup key [] = none
  lookup key (entry ∷ rest) = if same entry.0 key then some entry.1 else lookup key rest

  unfoldable pub erase : K → List (K × D) → List (K × D)
  erase key [] = []
  erase key (entry ∷ rest) = if same entry.0 key then rest else entry ∷ erase key rest

  -- `Evict()`; the source asserts that the list is not empty, and that its last key is in the map.
  unfoldable pub evict : DynamicCache K D → DynamicCache K D
  evict c = elim c.lru [
    | [] ↦ c
    | first ∷ rest ↦
        let back = split_back first rest in
        record c { entries = erase back.1 c.entries; lru = back.0 }
  ]

  -- The key put in front of the list, and taken off again where it is in the map already.
  unfoldable pub insert_entry : K → D → DynamicCache K D → DynamicCache K D
  insert_entry key value c = elim (lookup key c.entries) [
    | none ↦ record c { entries = (key, value) ∷ c.entries; lru = key ∷ c.lru }
    | some old ↦ c
  ]

  -- `Insert(key, value)`.
  unfoldable pub insert : K → D → DynamicCache K D → DynamicCache K D
  insert key value c =
      insert_entry key value (if length c.entries == c.capacity then evict c else c)

  -- `Find(key)`: the value, with the key moved to the front.
  unfoldable pub find_entry : K → DynamicCache K D → Option D × DynamicCache K D
  find_entry key c = elim (lookup key c.entries) [
    | none ↦ (none, c)
    | some value ↦ (some value, record c { lru = key ∷ remove_first same key c.lru })
  ]

  -- `Clear()`, which leaves the list as it is.
  unfoldable pub clear : DynamicCache K D → DynamicCache K D
  clear c = record c { entries = [] }

  pub find_entry-lookup : (k : K) (c : DynamicCache K D) → (find_entry k c).0 ≡ lookup k c.entries
  unfolding find_entry
  find_entry-lookup k c = go (lookup k c.entries) refl
    where
      go : (found : Option D) → lookup k c.entries ≡ found → (find_entry k c).0 ≡ lookup k c.entries
      go none e = rw (e, find_entry) refl
      go (some value) e = rw (e, find_entry) refl
