-- ===== src/Condition/Merge.antt =====
-- `MergeBit0` to `MergeBits12` of src/condition.cpp: what is left of a word of values.
use nldtool.Base.{
  ℕ, zero, suc, ◌+◌, ◌<◌, ◌≡◌, refl, arith, Bool, true, not, List, [], ◌∷◌, ◌==◌, ◌&&◌, ltb, leb,
  Bool-cases, inl, inr, if◌then◌else◌, bit_and, length,
}
use native.Mathlib.Decide.{ℕ_discrete}
use nldtool.Bits.{bit, bit-bit_and}
use nldtool.Condition.{merge_loop}
use nldtool.Condition.Two
use nldtool.Condition.Three
use nldtool.Condition.Project.{pair_at, pairs_at}

-- The masks from the one of part `i` on each exclude value `p` just when its part is theirs.
unfoldable exclude : List ℕ → ℕ → ℕ → ℕ → Bool
exclude [] i part p = true
exclude (m ∷ rest) i part p =
    (if part == i then not (bit m p) else bit m p) && exclude rest (i + 1) part p

merge_loop-bit :
    (masks : List ℕ) (i cond c part p : ℕ)
    → exclude masks i part p ≡ true
    → bit (merge_loop masks i cond c) p
      ≡ (if leb i part && ltb part (i + length masks) then bit c p && bit cond part else bit c p)
merge_loop-bit [] i cond c part p h = unfold merge_loop in ground arith
merge_loop-bit (m ∷ rest) i cond c part p h =
    let h' : ((if part == i then not (bit m p) else bit m p) && exclude rest (i + 1) part p)
        ≡ true =
      unfold exclude in h in
    let next = if bit cond i then c else bit_and c m in
    let step : merge_loop (m ∷ rest) i cond c ≡ merge_loop rest (i + 1) cond next =
      unfold merge_loop in refl in
    let h'' : exclude rest (i + 1) part p ≡ true = ground arith in
    elim (Bool-cases (bit cond i)) [
      | inl t ↦ rw (step, t) (ground (arith, merge_loop-bit rest (i + 1) cond c part p h''))
      | inr f ↦
          rw (step, f)
            (ground
              (arith, merge_loop-bit rest (i + 1) cond (bit_and c m) part p h'', bit-bit_and c m p))
    ]

-- For every value below `n`, the masks exclude it just for the part that `place` gives.
unfoldable excludes : ℕ → List ℕ → (ℕ → ℕ) → Bool
excludes zero masks place = true
excludes (suc n) masks place =
    (ltb (place n) (length masks) && exclude masks 0 (place n) n) && excludes n masks place

and_parts : (a b c : Bool) → ((a && b) && c) ≡ true → (a ≡ true) × (b ≡ true) × (c ≡ true)
and_parts a b c h = ground arith

merge_loop-keeps :
    (n : ℕ) (masks : List ℕ) (place : ℕ → ℕ)
    → excludes n masks place ≡ true
    → (c cond p : ℕ) → p < n
    → bit (merge_loop masks 0 cond c) p ≡ (bit c p && bit cond (place p))
merge_loop-keeps zero masks place h c cond p lt = absurd (omega arith)
merge_loop-keeps (suc n) masks place h c cond p lt =
    let parts =
      and_parts (ltb (place n) (length masks)) (exclude masks 0 (place n) n)
        (excludes n masks place) (unfold excludes in h) in
    elim (ℕ_discrete p n) [
      | yes e ↦ rw e (ground (arith, merge_loop-bit masks 0 cond c (place n) n parts.1, parts.0))
      | no ne ↦ merge_loop-keeps n masks place parts.2 c cond p (omega arith)
    ]

-- For every word of `Condition<2>`, `MergeBit0` and `MergeBit1` keep a value just when the condition has its
-- pair in that place.
pub two_merges-keep :
    (c cond p : ℕ)
    → p < 16
    → (bit (Two.merge_bit0 c cond) p ≡ (bit c p && bit cond (pair_at 2 0 p)))
      × (bit (Two.merge_bit1 c cond) p ≡ (bit c p && bit cond (pair_at 2 1 p)))
unfolding excludes exclude bit Two.merge_bit0 Two.merge_bit1
two_merges-keep c cond p lt = (
  merge_loop-keeps 16 _ (pair_at 2 0) refl c cond p lt,
  merge_loop-keeps 16 _ (pair_at 2 1) refl c cond p lt,
)

-- For every word of `Condition<3>`, `MergeBit0`, `MergeBit1` and `MergeBit2` keep a value just when the condition
-- has its pair in that place, and `MergeBits01` and `MergeBits12` just when the condition has its two pairs.
pub three_merges-keep :
    (c cond p : ℕ)
    → p < 64
    → (bit (Three.merge_bit0 c cond) p ≡ (bit c p && bit cond (pair_at 3 0 p)))
      × (bit (Three.merge_bit1 c cond) p ≡ (bit c p && bit cond (pair_at 3 1 p)))
      × (bit (Three.merge_bit2 c cond) p ≡ (bit c p && bit cond (pair_at 3 2 p)))
      × (bit (Three.merge_bits01 c cond) p ≡ (bit c p && bit cond (pairs_at 3 0 p)))
      × (bit (Three.merge_bits12 c cond) p ≡ (bit c p && bit cond (pairs_at 3 1 p)))
unfolding excludes exclude bit Three.merge_bit0 Three.merge_bit1 Three.merge_bit2 Three.merge_bits01
    Three.merge_bits12
three_merges-keep c cond p lt = (
  merge_loop-keeps 64 _ (pair_at 3 0) refl c cond p lt,
  merge_loop-keeps 64 _ (pair_at 3 1) refl c cond p lt,
  merge_loop-keeps 64 _ (pair_at 3 2) refl c cond p lt,
  merge_loop-keeps 64 _ (pairs_at 3 0) refl c cond p lt,
  merge_loop-keeps 64 _ (pairs_at 3 1) refl c cond p lt,
)
