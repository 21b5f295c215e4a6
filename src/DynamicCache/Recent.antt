-- ===== src/DynamicCache/Recent.antt =====
-- src/dynamic_cache.h: which values `Find` finds after `Insert`, and in which order the keys were used.
use nldtool.Base.{
  ◌≤◌, ◌<◌, ◌≡◌, refl, arith, ap, ap₂, sym, ◌∙◌, Bool, true, false, List, [], ◌∷◌, Option, none,
  some, ◌==◌, ◌&&◌, if◌then◌else◌, Bool-cases, List-cases, inl, inr, length,
}
use nldtool.DynamicCache.{
  DynamicCache, lookup, erase, evict, insert_entry, insert, find_entry, split_back, remove_first,
  find_entry-lookup,
}
use nldtool.DynamicCache.Bounds.{IsSound, hit, occurs, keys, lookup-occurs}

-- The keys without the last one.
unfoldable pub without_last : {K : Type 0} → List K → List K
without_last [] = []
without_last (x ∷ []) = []
without_last (x ∷ y ∷ rest) = x ∷ without_last (y ∷ rest)

-- The first value, if there is one, and else the second one.
unfoldable pub or_else : {D : Type 0} → Option D → Option D → Option D
or_else (some old) new = some old
or_else none new = new

unfoldable pub is_some : {D : Type 0} → Option D → Bool
is_some none = false
is_some (some old) = true

module _ {K : Type 0} (same : K → K → Bool) where
  -- Whether the key is the last one.
  unfoldable pub is_last : K → List K → Bool
  is_last k [] = false
  is_last k (x ∷ []) = same x k
  is_last k (x ∷ y ∷ rest) = is_last k (y ∷ rest)

  -- All keys but the key `k`.
  unfoldable pub others : K → List K → List K
  others k [] = []
  others k (x ∷ xs) = if same x k then others k xs else x ∷ others k xs

  split_back-last :
      (k first : K) (rest : List K)
      → ((split_back first rest).0 ≡ without_last (first ∷ rest))
        × (same (split_back first rest).1 k ≡ is_last k (first ∷ rest))
  unfolding split_back without_last is_last
  split_back-last k first [] = (refl, refl)
  split_back-last k first (next ∷ rest) =
      let (list, last) = split_back-last k next rest in (ap (λ l. first ∷ l) list, last)

  others-none : (k : K) (xs : List K) → occurs same k xs ≡ 0 → others k xs ≡ xs
  unfolding others occurs
  others-none k [] h = refl
  others-none k (x ∷ xs) h = elim (Bool-cases (same x k)) [
    | inl t ↦ absurd (let one : hit same k x ≡ 1 = rw t refl in omega (arith, one, h))
    | inr e ↦ rw e (ap (λ l. x ∷ l) (others-none k xs (omega (arith, h))))
  ]

  remove_first-others :
      (k : K) (xs : List K) → occurs same k xs ≤ 1 → remove_first same k xs ≡ others k xs
  unfolding others occurs remove_first
  remove_first-others k [] h = refl
  remove_first-others k (x ∷ xs) h = elim (Bool-cases (same x k)) [
    | inl t ↦
        let one : hit same k x ≡ 1 = rw t refl in
        rw t (sym (others-none k xs (omega (arith, one, h))))
    | inr e ↦ rw e (ap (λ l. x ∷ l) (remove_first-others k xs (omega (arith, h))))
  ]

module _ {K D : Type 0} (same : K → K → Bool) (c : DynamicCache K D) where
  abbrev full : Bool
  full = length c.entries == c.capacity

  -- What a key finds when the key not used for the longest time has been given up in a full cache, and the keys that
  -- are left, the last used one first.
  abbrev pub remaining : K → Option D
  remaining k = if full && is_last same k c.lru then none else (find_entry same k c).0

  abbrev pub recent : List K
  recent = if full then without_last c.lru else c.lru

  -- The cache after the test of `Insert`.
  abbrev roomy : DynamicCache K D
  roomy = if full then evict same c else c

module _ {K D : Type 0} (same : K → K → Bool) (exact : (a b : K) → same a b ≡ true → a ≡ b)
    (same_self : (a : K) → same a a ≡ true) where
  lookup-absent :
      (k : K) (es : List (K × D)) → occurs same k (keys es) ≡ 0 → lookup same k es ≡ none
  lookup-absent k es h = elim (lookup-occurs same exact same_self k es) [
    | inl (absent, fresh) ↦ absent
    | inr (old, found, there) ↦ absurd (omega (arith, h, there))
  ]

  lookup-erase :
      (b k : K) (es : List (K × D))
      → occurs same b (keys es) ≤ 1
      → lookup same k (erase same b es) ≡ (if same b k then none else lookup same k es)
  unfolding lookup erase occurs keys
  lookup-erase b k [] h = elim (Bool-cases (same b k)) [ inl t ↦ rw t refl | inr e ↦ rw e refl ]
  lookup-erase b k (x ∷ es) h = elim (Bool-cases (same x.0 b)) [
    | inl t ↦
        let one : hit same b x.0 ≡ 1 = rw t refl in
        let gone : lookup same b es ≡ none = lookup-absent b es (omega (arith, one, h)) in
        let key : same x.0 k ≡ same b k = ap (λ a. same a k) (exact x.0 b t) in
        elim (Bool-cases (same b k)) [
          | inl u ↦ rw (t, u) (ap (λ a. lookup same a es) (sym (exact b k u)) ∙ gone)
          | inr u ↦ rw (t, u, key ∙ u) refl
        ]
    | inr e ↦
        let later = lookup-erase b k es (omega (arith, h)) in
        elim (Bool-cases (same x.0 k)) [
          | inl u ↦
              let differ : same b k ≡ false = elim (Bool-cases (same b k)) [
                | inl v ↦ absurd (
                    let same_key : same x.0 b ≡ true =
                      ap₂ same (exact x.0 k u) (exact b k v) ∙ same_self k in
                    ground (arith, same_key, e))
                | inr v ↦ v
              ] in
              rw (e, u, differ) refl
          | inr u ↦ rw (e, u) later
        ]
  ]

  module _ (c : DynamicCache K D) where
    roomy-Recent :
        (k : K)
        → IsSound same c
        → 0 < c.capacity
        → (lookup same k (roomy same c).entries ≡ remaining same c k)
          × ((roomy same c).lru ≡ recent same c)
    unfolding evict
    roomy-Recent k w positive = elim (Bool-cases (full same c)) [
      | inr e ↦ rw e (sym (find_entry-lookup same k c), refl)
      | inl t ↦ elim (List-cases c.lru) [
        | inl e ↦ absurd (
            let none_left : length c.lru ≡ 0 = rw e refl in
            let filled : length c.entries ≡ c.capacity = ground (arith, t) in
            omega (arith, none_left, w.counted, filled, positive))
        | inr (first, rest, e) ↦
            let (list, last) = split_back-last same k first rest in
            let erased =
              lookup-erase (split_back first rest).1 k c.entries
                (w.once (split_back first rest).1) in
            rw (t, e, evict)
              (
                erased
                    ∙ ap₂ (λ (b : Bool) (found : Option D). if b then none else found) last
                        (sym (find_entry-lookup same k (record c { lru = first ∷ rest }))),
                list,
              )
      ]
    ]

    find_entry-order :
        (k : K)
        → IsSound same c
        → (find_entry same k c).1.lru
          ≡ (if is_some (find_entry same k c).0 then k ∷ others same k c.lru else c.lru)
    unfolding find_entry is_some
    find_entry-order k w = elim (lookup-occurs same exact same_self k c.entries) [
      | inl (absent, fresh) ↦ rw (absent, find_entry) refl
      | inr (old, found, there) ↦
          rw (found, find_entry)
            (ap (λ l. k ∷ l)
              (remove_first-others same k c.lru (omega (arith, w.listed k, w.once k))))
    ]

  insert_entry-Recent :
      (key k : K) (value : D) (c : DynamicCache K D)
      → (lookup same k (insert_entry same key value c).entries
          ≡ or_else (lookup same k c.entries) (if same key k then some value else none))
        × ((insert_entry same key value c).lru
            ≡ (if is_some (lookup same key c.entries) then c.lru else key ∷ c.lru))
  unfolding insert_entry is_some or_else lookup
  insert_entry-Recent key k value c = elim (lookup-occurs same exact same_self key c.entries) [
    | inl (absent, fresh) ↦ elim (Bool-cases (same key k)) [
      | inl t ↦
          let absent' : lookup same k c.entries ≡ none =
            ap (λ a. lookup same a c.entries) (sym (exact key k t)) ∙ absent in
          rw (absent, insert_entry, t, absent') (refl, refl)
      | inr e ↦ elim (lookup-occurs same exact same_self k c.entries) [
        | inl (absent', fresh') ↦ rw (absent, insert_entry, e, absent') (refl, refl)
        | inr (old, found, there) ↦ rw (absent, insert_entry, e, found) (refl, refl)
      ]
    ]
    | inr (old, found, there) ↦ elim (Bool-cases (same key k)) [
      | inl t ↦
          let found' : lookup same k c.entries ≡ some old =
            ap (λ a. lookup same a c.entries) (sym (exact key k t)) ∙ found in
          rw (found, insert_entry, t, found') (refl, refl)
      | inr e ↦ elim (lookup-occurs same exact same_self k c.entries) [
        | inl (absent', fresh') ↦ rw (found, insert_entry, e, absent') (refl, refl)
        | inr (old', found', there') ↦ rw (found, insert_entry, e, found') (refl, refl)
      ]
    ]
  ]

  -- For an exact test of equal keys and a sound cache of positive capacity: `Insert` first gives up the last key of the
  -- list, if the cache is full; then the inserted key finds the value it already had, or else the new one, and every
  -- other key finds what it found; a new key is put in front of the keys that are left, whose order is kept. `Find`
  -- puts a key that it finds in front of the others, whose order is kept, and else changes nothing in the list.
  pub find-insert :
      (key k : K) (value : D) (c : DynamicCache K D)
      → IsSound same c
      → 0 < c.capacity
      → ((find_entry same k (insert same key value c)).0
          ≡ or_else (remaining same c k) (if same key k then some value else none))
        × ((insert same key value c).lru
            ≡ (if is_some (remaining same c key) then recent same c else key ∷ recent same c))
        × ((find_entry same k c).1.lru
            ≡ (if is_some (find_entry same k c).0 then k ∷ others same k c.lru else c.lru))
  unfolding insert
  find-insert key k value c w positive =
      let (entry, order) = insert_entry-Recent key k value (roomy same c) in
      let (left, list) = roomy-Recent c k w positive in
      let (left_key, list_key) = roomy-Recent c key w positive in
      (
        find_entry-lookup same k (insert same key value c)
            ∙ entry
            ∙ ap (λ (o : Option D). or_else o (if same key k then some value else none)) left,
        order ∙ ap₂ (λ (o : Option D) (l : List K). if is_some o then l else key ∷ l) left_key list,
        find_entry-order c k w,
      )
