-- ===== src/DynamicCache/Right.antt =====
-- src/dynamic_cache.h as the cache of `Compute` in src/bitslice.h: the values in it stay right.
use nldtool.Base.{
  ℕ, ◌≡◌, refl, sym, ◌∙◌, subst, Bool, true, List, [], ◌∷◌, Option, none, some, ◌==◌, if◌then◌else◌,
  Bool-cases, inl, inr, length, All, List-cases,
}
use nldtool.DynamicCache.{
  DynamicCache, lookup, erase, evict, insert_entry, insert, find_entry, split_back,
}
use nldtool.Bitslice.Sorted.{CacheBase, IsCache}

abbrev pub dynamic_cache : {K D : Type 0} → (K → K → Bool) → CacheBase K D
dynamic_cache {K} {D} same = record {
  Cache = DynamicCache K D;
  find = find_entry same;
  insert = insert same;
}

module _ {K D : Type 0} (same : K → K → Bool) (exact : (a b : K) → same a b ≡ true → a ≡ b)
    (Right : K → D → Type 0) where
  abbrev RightAll : List (K × D) → Type 0
  RightAll = All (λ e. Right e.0 e.1)

  erase-RightAll : (key : K) (es : List (K × D)) → RightAll es → RightAll (erase same key es)
  unfolding erase
  erase-RightAll key [] h = h
  erase-RightAll key (e ∷ es) h = elim (Bool-cases (same e.0 key)) [
    | inl t ↦ rw t h.1
    | inr u ↦ rw u (h.0, erase-RightAll key es h.1)
  ]

  -- What is looked up is right, if there is anything.
  RightOption : K → Option D → Type 0
  RightOption key none = Unit
  RightOption key (some value) = Right key value

  lookup-RightOption :
      (key : K) (es : List (K × D)) → RightAll es → RightOption key (lookup same key es)
  unfolding lookup RightOption
  lookup-RightOption key [] h = tt
  lookup-RightOption key (x ∷ es) h = elim (Bool-cases (same x.0 key)) [
    | inl t ↦ rw t (subst (λ k. Right k x.1) (exact x.0 key t) h.0)
    | inr u ↦ rw u (lookup-RightOption key es h.1)
  ]

  evict-RightAll : (c : DynamicCache K D) → RightAll c.entries → RightAll (evict same c).entries
  unfolding evict
  evict-RightAll c h = elim (List-cases c.lru) [
    | inl e ↦ rw (e, evict) h
    | inr (first, rest, e) ↦ rw (e, evict) (erase-RightAll (split_back first rest).1 c.entries h)
  ]

  insert_entry-RightAll :
      (found : Option D) (key : K) (value : D) (c : DynamicCache K D)
      → lookup same key c.entries ≡ found
      → RightAll c.entries
      → Right key value
      → RightAll (insert_entry same key value c).entries
  unfolding insert_entry
  insert_entry-RightAll none key value c e h r = rw (e, insert_entry) (r, h)
  insert_entry-RightAll (some old) key value c e h r = rw (e, insert_entry) h

  find_entry-Right :
      (found : Option D) (key : K) (c : DynamicCache K D)
      → lookup same key c.entries ≡ found
      → RightAll c.entries
      → ((find_entry same key c).0 ≡ lookup same key c.entries)
        × RightAll (find_entry same key c).1.entries
  unfolding find_entry
  find_entry-Right none key c e h = rw (e, find_entry) (refl, h)
  find_entry-Right (some value) key c e h = rw (e, find_entry) (refl, h)

  found-Right :
      (key : K) (value : D) (c : DynamicCache K D)
      → RightAll c.entries
      → (find_entry same key c).0 ≡ some value
      → Right key value
  unfolding RightOption
  found-Right key value c h e =
      subst (RightOption key)
        (sym (find_entry-Right (lookup same key c.entries) key c refl h).0 ∙ e)
        (lookup-RightOption key c.entries h)

  -- A dynamic cache that has only right values returns only right values, and keeps to them when a right value is
  -- inserted, also where a key is evicted.
  pub dynamic_cache_laws : IsCache (dynamic_cache same) Right
  unfolding insert
  dynamic_cache_laws = record {
    Holds = λ c. RightAll c.entries;
    find-Right = found-Right;
    find-Holds = λ key c h. (find_entry-Right (lookup same key c.entries) key c refl h).1;
    insert-Holds = λ key value c h r.
        let room : RightAll (if length c.entries == c.capacity then evict same c else c).entries =
          elim (Bool-cases (length c.entries == c.capacity)) [
            | inl t ↦ rw t (evict-RightAll c h)
            | inr u ↦ rw u h
          ] in
        insert_entry-RightAll
          (lookup same key (if length c.entries == c.capacity then evict same c else c).entries) key
          value (if length c.entries == c.capacity then evict same c else c) refl room r;
  }

  pub empty-Holds :
      (capacity : ℕ) (lru : List K)
      → dynamic_cache_laws.Holds (record { entries = []; capacity = capacity; lru = lru })
  unfolding dynamic_cache_laws
  empty-Holds capacity lru = tt
