-- ===== src/Bitslice/Swap.antt =====
-- `std::swap` of two places of an array, as src/bitslice_data.h uses it, and what `F::Symmetry` of src/functions.h means.
use nldtool.Base.{
  ℕ, ◌<◌, ◌≡◌, refl, arith, ◌∙◌, true, false, List, ◌++◌, ◌==◌, if◌then◌else◌, length, length-set,
  get_or, get_or-set, set,
}
use native.Mathlib.Decide.{ℕ_discrete}
use nldtool.Pair.{Pair}
use nldtool.Bitslice.{BitFunction, params, no_pair}
use nldtool.Bitslice.Sorted.{swap_places}

-- The place that `k` goes to when `i` and `j` are exchanged.
abbrev pub exchanged : ℕ → ℕ → ℕ → ℕ
exchanged i j k = if k == i then j else (if k == j then i else k)

pub exchanged-exchanged : (i j k : ℕ) → exchanged i j (exchanged i j k) ≡ k
exchanged-exchanged i j k = ground arith

module _ {ℓ} {A : Type ℓ} (d : A) (xs : List A) (i j : ℕ) (hi : i < length xs)
    (hj : j < length xs) where
  pub length-swap_places : length (swap_places d xs i j) ≡ length xs
  unfolding swap_places
  length-swap_places = length-set (set xs i (get_or xs j d)) j _ ∙ length-set xs i _

  pub get_or-swap_places :
      (k : ℕ) → get_or (swap_places d xs i j) k d ≡ get_or xs (exchanged i j k) d
  unfolding swap_places
  get_or-swap_places k =
      let outer =
        get_or-set (set xs i (get_or xs j d)) j k (get_or xs i d) d
          (omega (arith, length-set xs i (get_or xs j d))) in
      let inner = get_or-set xs i k (get_or xs j d) d hi in
      elim (ℕ_discrete k j) [
        | yes e ↦ elim (ℕ_discrete k i) [
          | yes e' ↦
              let t : (k == i) ≡ true = ground arith in
              let s : (j == k) ≡ true = ground arith in
              let to : i ≡ j = omega arith in rw t (outer ∙ rw (s, to) refl)
          | no ne' ↦
              let t : (k == i) ≡ false = ground arith in
              let u : (k == j) ≡ true = ground arith in
              let s : (j == k) ≡ true = ground arith in rw (t, u) (outer ∙ rw s refl)
        ]
        | no ne ↦ elim (ℕ_discrete k i) [
          | yes e ↦
              let t : (k == i) ≡ true = ground arith in
              let s : (j == k) ≡ false = ground arith in
              let u : (i == k) ≡ true = ground arith in rw t (outer ∙ rw s (inner ∙ rw u refl))
          | no ne' ↦
              let t : (k == i) ≡ false = ground arith in
              let u : (k == j) ≡ false = ground arith in
              let s : (j == k) ≡ false = ground arith in
              let w : (i == k) ≡ false = ground arith in
              rw (t, u) (outer ∙ rw s (inner ∙ rw w refl))
        ]
      ]

-- The function's table of inputs and outputs stays the same when two parameters of equal symmetry are exchanged,
-- and these have equally many bits.
pub record IsSymmetric (f : BitFunction) : Type 0 where
  pub same_bits :
      (i j : ℕ) → i < j → j < params f → f.symmetry i ≡ f.symmetry j → f.bitsize i ≡ f.bitsize j
  pub table_kept :
      (i j : ℕ) (xs : List Pair)
      → i < j
      → j < params f
      → f.symmetry i ≡ f.symmetry j
      → length xs ≡ f.inputs
      → (ys : List Pair) × (length ys ≡ f.inputs)
        × (swap_places no_pair (xs ++ f.apply xs) i j ≡ ys ++ f.apply ys)
