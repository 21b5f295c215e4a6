-- ===== src/Bitslice/Filled.antt =====
-- Lists of pairs and of indices in `SetupPairs`, `GetPair` and `Increment` of src/bitslice_data.h and src/index.h.
use nldtool.Base.{
  ℕ, zero, suc, ◌+◌, ◌*◌, ◌≤◌, ◌≡◌, refl, arith, ap, true, List, [], ◌∷◌, ◌++◌, map, ◌&&◌, length,
  replicate,
}
use nldtool.Pair.{Pair}
use nldtool.Bitslice.{BitFunction, setup_from, increment, count_choices, all_filled}
use nldtool.Bitslice.Conditions.{fits}
use nldtool.Bitslice.Counter.{in_range, product, Stepped, increment-Stepped}
use nldtool.Bitslice.Choices.{admits}

module _ (f : BitFunction) where
  pub fits-append :
      (ps qs : List Pair) (i : ℕ)
      → fits f ps i ≡ true
      → fits f qs (i + length ps) ≡ true
      → fits f (ps ++ qs) i ≡ true
  unfolding fits
  fits-append [] qs i hp hq = let same : i + 0 ≡ i = omega arith in rw same at hq
  fits-append (p ∷ ps) qs i hp hq =
      let next : i + suc (length ps) ≡ i + 1 + length ps = omega arith in
      let there : fits f qs (i + 1 + length ps) ≡ true = rw next at hq in
      ground (arith, hp, fits-append ps qs (i + 1) (ground (arith, hp)) there)

  pub admits-append :
      (d : List ℕ) (ps qs : List Pair) (i : ℕ)
      → admits f d (ps ++ qs) i ≡ (admits f d ps i && admits f d qs (i + length ps))
  unfolding admits
  admits-append d [] qs i = let same : i + 0 ≡ i = omega arith in rw same refl
  admits-append d (p ∷ ps) qs i =
      let next : i + suc (length ps) ≡ i + 1 + length ps = omega arith in
      rw next (ground (arith, admits-append d ps qs (i + 1)))

  pub admits-fits :
      (d : List ℕ) (ps : List Pair) (i : ℕ) → admits f d ps i ≡ true → fits f ps i ≡ true
  unfolding admits fits
  admits-fits d [] i h = refl
  admits-fits d (p ∷ ps) i h = ground (arith, h, admits-fits d ps (i + 1) (ground (arith, h)))

pub count-product : (pairs : List (List Pair)) → count_choices pairs ≡ product (map length pairs)
unfolding count_choices product
count-product [] = refl
count-product (ps ∷ pairs) = ap (λ n. length ps * n) (count-product pairs)

-- A choice in range is there only if no list is empty, and then the first choice is in range.
pub in_range-filled :
    (f : BitFunction) (pairs : List (List Pair)) (indices : List ℕ)
    → in_range indices (map length pairs) ≡ true
    → all_filled f pairs ≡ true
unfolding in_range all_filled
in_range-filled f [] indices h = refl
in_range-filled f (ps ∷ pairs) [] h = absurd (ground (arith, h))
in_range-filled f (ps ∷ pairs) (i ∷ indices) h =
    ground (arith, h, in_range-filled f pairs indices (ground (arith, h)))

pub zeros-in_range :
    (f : BitFunction) (pairs : List (List Pair))
    → all_filled f pairs ≡ true
    → in_range (replicate (length pairs) 0) (map length pairs) ≡ true
unfolding in_range all_filled
zeros-in_range f [] h = refl
zeros-in_range f (ps ∷ pairs) h = ground (arith, h, zeros-in_range f pairs (ground (arith, h)))

pub length-setup_from :
    (f : BitFunction) (d : List ℕ) (left j : ℕ) → length (setup_from f d left j) ≡ left
unfolding setup_from
length-setup_from f d zero j = refl
length-setup_from f d (suc left) j = ap suc (length-setup_from f d left (j + 1))

pub length-map : (pairs : List (List Pair)) → length (map length pairs) ≡ length pairs
length-map [] = refl
length-map (ps ∷ pairs) = ap suc (length-map pairs)

pub increment-some :
    (vs ss : List ℕ) → in_range vs ss ≡ true → 1 ≤ length ss → Stepped vs ss (increment vs ss)
unfolding in_range
increment-some [] [] h some = absurd (omega arith)
increment-some [] (s ∷ ss) h some = absurd (ground (arith, h))
increment-some (v ∷ vs) ss h some = increment-Stepped v vs ss h
