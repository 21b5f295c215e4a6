-- ===== src/DynamicCache/Bounds.antt =====
-- src/dynamic_cache.h: the map stays within its capacity, and the list has each key of the map once.
use nldtool.Base.{
  ℕ, ◌+◌, ◌≤◌, ◌<◌, ◌≡◌, refl, arith, ap, sym, ◌∙◌, subst, Bool, true, false, List, [], ◌∷◌, none,
  some, ◌==◌, ◌⊎◌, if◌then◌else◌, Bool-cases, List-cases, inl, inr, length,
}
use nldtool.DynamicCache.{
  DynamicCache, lookup, erase, evict, insert_entry, insert, find_entry, split_back, remove_first,
}

module _ {K : Type 0} (same : K → K → Bool) where
  -- One for the key itself, and how often a key is in a list.
  abbrev pub hit : K → K → ℕ
  hit k x = if same x k then 1 else 0

  unfoldable pub occurs : K → List K → ℕ
  occurs k [] = 0
  occurs k (x ∷ xs) = hit k x + occurs k xs

-- The keys of the entries.
unfoldable pub keys : {K D : Type 0} → List (K × D) → List K
keys [] = []
keys (e ∷ es) = e.0 ∷ keys es

-- The cache has at most as many entries as its capacity, no key twice, and in the list the keys of the entries.
pub record IsSound {K D : Type 0} (same : K → K → Bool) (c : DynamicCache K D) : Type 0 where
  pub bounded : length c.entries ≤ c.capacity
  pub counted : length c.lru ≡ length c.entries
  pub once : (k : K) → occurs same k (keys c.entries) ≤ 1
  pub listed : (k : K) → occurs same k c.lru ≡ occurs same k (keys c.entries)

module _ {K : Type 0} (same : K → K → Bool) (exact : (a b : K) → same a b ≡ true → a ≡ b) where
  hit_same : (k x y : K) → same x y ≡ true → hit same k x ≡ hit same k y
  hit_same k x y t = ap (hit same k) (exact x y t)

  hit_other : (x y : K) → same x y ≡ false → hit same y x ≡ 0
  hit_other x y e = rw e refl

  remove_first-occurs :
      (key : K) (xs : List K)
      → 1 ≤ occurs same key xs
      → ((k : K) → occurs same k (remove_first same key xs) + hit same k key ≡ occurs same k xs)
        × (length (remove_first same key xs) + 1 ≡ length xs)
  unfolding occurs remove_first
  remove_first-occurs key [] h = absurd (omega arith)
  remove_first-occurs key (x ∷ xs) h = elim (Bool-cases (same x key)) [
    | inl t ↦ rw t (λ k. omega (arith, hit_same k x key t), omega arith)
    | inr u ↦
        let later = remove_first-occurs key xs (omega (arith, h, hit_other x key u)) in
        rw u (λ k. omega (arith, later.0 k), omega (arith, later.1))
  ]

  split_back-occurs :
      (first : K) (rest : List K)
      → ((k : K)
          → occurs same k (split_back first rest).0 + hit same k (split_back first rest).1
            ≡ occurs same k (first ∷ rest))
        × (length (split_back first rest).0 ≡ length rest)
  unfolding occurs split_back
  split_back-occurs first [] = (λ k. omega arith, refl)
  split_back-occurs first (next ∷ rest) =
      let later = split_back-occurs next rest in
      (λ k. omega (arith, later.0 k), omega (arith, later.1))

module _ {K : Type 0} (same : K → K → Bool) (same_self : (a : K) → same a a ≡ true) where
  hit_self : (k : K) → hit same k k ≡ 1
  hit_self k = rw (same_self k) refl

module _ {K D : Type 0} (same : K → K → Bool) (exact : (a b : K) → same a b ≡ true → a ≡ b)
    (same_self : (a : K) → same a a ≡ true) where
  erase-occurs :
      (key : K) (es : List (K × D))
      → 1 ≤ occurs same key (keys es)
      → ((k : K)
          → occurs same k (keys (erase same key es)) + hit same k key ≡ occurs same k (keys es))
        × (length (erase same key es) + 1 ≡ length es)
  unfolding occurs keys erase
  erase-occurs key [] h = absurd (omega arith)
  erase-occurs key (e ∷ es) h = elim (Bool-cases (same e.0 key)) [
    | inl t ↦ rw t (λ k. omega (arith, hit_same same exact k e.0 key t), omega arith)
    | inr u ↦
        let later = erase-occurs key es (omega (arith, h, hit_other same exact e.0 key u)) in
        rw u (λ k. omega (arith, later.0 k), omega (arith, later.1))
  ]

  pub lookup-occurs :
      (key : K) (es : List (K × D))
      → ((lookup same key es ≡ none) × (occurs same key (keys es) ≡ 0))
        ⊎ ((old : D) × (lookup same key es ≡ some old) × (1 ≤ occurs same key (keys es)))
  unfolding lookup occurs keys
  lookup-occurs key [] = inl (refl, refl)
  lookup-occurs key (e ∷ es) = elim (Bool-cases (same e.0 key)) [
    | inl t ↦ rw t (inr (e.1, refl, omega arith))
    | inr u ↦ rw u (elim (lookup-occurs key es) [
      | inl (absent, none_there) ↦ inl (absent, omega (arith, none_there))
      | inr (old, found, there) ↦ inr (old, found, omega (arith, there))
    ])
  ]

  evict-IsSound :
      (c : DynamicCache K D)
      → IsSound same c
      → 0 < length c.entries
      → IsSound same (evict same c)
        × (length (evict same c).entries + 1 ≡ length c.entries)
        × ((evict same c).capacity ≡ c.capacity)
  unfolding evict
  evict-IsSound c w filled = elim (List-cases c.lru) [
    | inl e ↦ absurd (
        let none_left : length c.lru ≡ 0 = rw e refl in omega (arith, none_left, w.counted, filled))
    | inr (first, rest, e) ↦
        let back = (split_back first rest).1 in
        let (split, shorter) = split_back-occurs same exact first rest in
        let listed =
          λ (k : K). subst (λ l. occurs same k l ≡ occurs same k (keys c.entries)) e (w.listed k) in
        let counted = subst (λ l. length l ≡ length c.entries) e w.counted in
        let there : 1 ≤ occurs same back (keys c.entries) =
          omega (arith, split back, listed back, hit_self same same_self back) in
        let (left, fewer) = erase-occurs back c.entries there in
        rw (e, evict)
          (
            record {
              bounded = omega (arith, fewer, w.bounded);
              counted = omega (arith, fewer, shorter, counted);
              once = λ k. omega (arith, left k, w.once k);
              listed = λ k. omega (arith, left k, split k, listed k);
            },
            fewer,
            refl,
          )
  ]

  insert_entry-IsSound :
      (key : K) (value : D) (c : DynamicCache K D)
      → IsSound same c
      → length c.entries < c.capacity
      → IsSound same (insert_entry same key value c)
        × (occurs same key (keys (insert_entry same key value c).entries) ≡ 1)
        × ((insert_entry same key value c).capacity ≡ c.capacity)
  unfolding insert_entry occurs keys
  insert_entry-IsSound key value c w room = elim (lookup-occurs key c.entries) [
    | inl (absent, fresh) ↦
        rw (absent, insert_entry)
          (
            record {
              bounded = omega (arith, room);
              counted = omega (arith, w.counted);
              once = λ k. elim (Bool-cases (same key k)) [
                | inl t ↦
                    let none_there : occurs same k (keys c.entries) ≡ 0 =
                      ap (λ x. occurs same x (keys c.entries)) (sym (exact key k t)) ∙ fresh in
                    rw t (omega (arith, none_there))
                | inr u ↦ rw u (omega (arith, w.once k))
              ];
              listed = λ k. omega (arith, w.listed k);
            },
            omega (arith, fresh, hit_self same same_self key),
            refl,
          )
    | inr (old, found, there) ↦ rw (found, insert_entry) (w, omega (arith, w.once key, there), refl)
  ]

  pub find_entry-IsSound :
      (key : K) (c : DynamicCache K D) → IsSound same c → IsSound same (find_entry same key c).1
  unfolding find_entry occurs
  find_entry-IsSound key c w = elim (lookup-occurs key c.entries) [
    | inl (absent, fresh) ↦ rw (absent, find_entry) w
    | inr (old, found, there) ↦
        let (left, fewer) =
          remove_first-occurs same exact key c.lru (omega (arith, there, w.listed key)) in
        rw (found, find_entry)
          record {
            bounded = w.bounded;
            counted = omega (arith, fewer, w.counted);
            once = w.once;
            listed = λ k. omega (arith, left k, w.listed k);
          }
  ]

  -- For an exact test of equal keys and a sound cache of positive capacity, `Insert` leaves a sound cache of the same
  -- capacity, with the key in it once; `Find` leaves a sound cache.
  pub cache-IsSound :
      (key : K) (value : D) (c : DynamicCache K D)
      → IsSound same c
      → 0 < c.capacity
      → IsSound same (insert same key value c)
        × (occurs same key (keys (insert same key value c).entries) ≡ 1)
        × ((insert same key value c).capacity ≡ c.capacity)
        × IsSound same (find_entry same key c).1
  unfolding insert
  cache-IsSound key value c w positive = elim (Bool-cases (length c.entries == c.capacity)) [
    | inl t ↦
        let full : length c.entries ≡ c.capacity = ground (arith, t) in
        let (sound, fewer, size) = evict-IsSound c w (omega (arith, full, positive)) in
        let (sound', there, size') =
          insert_entry-IsSound key value (evict same c) sound (omega (arith, fewer, full, size)) in
        rw t (sound', there, size' ∙ size, find_entry-IsSound key c w)
    | inr u ↦
        let room : length c.entries < c.capacity = ground (arith, u, w.bounded) in
        let (sound', there, size') = insert_entry-IsSound key value c w room in
        rw u (sound', there, size', find_entry-IsSound key c w)
  ]
