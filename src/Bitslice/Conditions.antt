-- ===== src/Bitslice/Conditions.antt =====
-- `GetCondition` and `SetCondition` of src/bitslice_data.h: each parameter has its own range of bits.
use nldtool.Base.{
  ℕ, zero, suc, ◌+◌, ◌-◌, ◌*◌, ◌/◌, ◌%◌, ◌^◌, ◌≤◌, ◌<◌, ◌≡◌, refl, arith, ap, ap₂, sym, ◌∙◌, subst,
  Bool, true, false, List, [], ◌∷◌, ◌==◌, ◌&&◌, ltb, if◌then◌else◌, length, bit_or, tri, inl, inr,
  ◌⊎◌, tabulate-agree,
}
use native.Mathlib.Decide.{ℕ_discrete}
use nldtool.Bits.{bit, shl, bit-bit_and, two_pow-pos}
use nldtool.Pair.{Pair}
use nldtool.Utils.{mask}
use nldtool.Utils.Windows.{bit-mask}
use nldtool.WordContainer.Ranges.{bit-get}
use nldtool.WordContainer.Fields.{get-set_range, get-set_range_apart}
use nldtool.Bitslice.{BitFunction, condition_index, params, num_words, get_condition, set_condition}

-- Both members of the pair are numbers of `n` bits.
abbrev pub fits_bits : ℕ → Pair → Bool
fits_bits n p = ltb p.first (2 ^ n) && ltb p.second (2 ^ n)

-- The pairs have the bits of the parameters from `i` on.
unfoldable pub fits : BitFunction → List Pair → ℕ → Bool
fits f [] i = true
fits f (p ∷ ps) i = fits_bits (f.bitsize i) p && fits f ps (i + 1)

-- What the templates rely on: one to three bits for each parameter, an input at least, and as many outputs of
-- the declared bits as there are.
pub record IsBitFunction (f : BitFunction) : Type 0 where
  pub some_input : 1 ≤ f.inputs
  pub bits_from : (i : ℕ) → 1 ≤ f.bitsize i
  pub bits_to : (i : ℕ) → f.bitsize i ≤ 3
  pub outputs_all : (xs : List Pair) → length xs ≡ f.inputs → length (f.apply xs) ≡ f.outputs
  pub outputs_fit :
      (xs : List Pair)
      → length xs ≡ f.inputs
      → fits f xs 0 ≡ true
      → fits f (f.apply xs) f.inputs ≡ true

-- The bits of a condition.
abbrev pub width : ℕ → ℕ
width n = 2 ^ (2 * n)

pub width-le : (n : ℕ) → n ≤ 3 → width n ≤ 64
width-le zero h = omega arith
width-le (suc zero) h = omega arith
width-le (suc (suc zero)) h = omega arith
width-le (suc (suc (suc zero))) h = omega arith
width-le (suc (suc (suc (suc n)))) h = absurd (omega arith)

placed : ℕ → ℕ → ℕ
placed n x = bit_or (shl (x / 2 ^ n) n) (x % 2 ^ n)

-- A pair of `n`-bit numbers is its place in the condition.
pub pair_place :
    (n a b : ℕ)
    → n ≤ 3
    → a < 2 ^ n
    → b < 2 ^ n
    → (bit_or (shl b n) a ≡ b * 2 ^ n + a) × (b * 2 ^ n + a < width n)
unfolding placed shl
pair_place zero a b h la lb =
    let lo : a ≡ 0 = omega arith in let hi : b ≡ 0 = omega arith in rw (lo, hi) (refl, omega arith)
pair_place (suc zero) a b h la lb =
    let hi : (b * 2 + a) / 2 ≡ b = omega arith in
    let lo : (b * 2 + a) % 2 ≡ a = omega arith in
    let view = tabulate-agree 4 (placed 1) (λ x. x) refl (b * 2 + a) (omega arith) in
    (ap₂ (λ x y. bit_or (shl x 1) y) (sym hi) (sym lo) ∙ view, omega arith)
pair_place (suc (suc zero)) a b h la lb =
    let hi : (b * 4 + a) / 4 ≡ b = omega arith in
    let lo : (b * 4 + a) % 4 ≡ a = omega arith in
    let view = tabulate-agree 16 (placed 2) (λ x. x) refl (b * 4 + a) (omega arith) in
    (ap₂ (λ x y. bit_or (shl x 2) y) (sym hi) (sym lo) ∙ view, omega arith)
pair_place (suc (suc (suc zero))) a b h la lb =
    let hi : (b * 8 + a) / 8 ≡ b = omega arith in
    let lo : (b * 8 + a) % 8 ≡ a = omega arith in
    let view = tabulate-agree 64 (placed 3) (λ x. x) refl (b * 8 + a) (omega arith) in
    (ap₂ (λ x y. bit_or (shl x 3) y) (sym hi) (sym lo) ∙ view, omega arith)
pair_place (suc (suc (suc (suc n)))) a b h la lb = absurd (omega arith)

module _ (f : BitFunction) (ok : IsBitFunction f) where
  index-suc : (i : ℕ) → condition_index f (i + 1) ≡ condition_index f i + width (f.bitsize i)
  unfolding condition_index
  index-suc i = let next : i + 1 ≡ suc i = omega arith in rw next refl

  index_up : (i d : ℕ) → condition_index f (i + 1) ≤ condition_index f (i + 1 + d)
  index_up i zero = let same : i + 1 + 0 ≡ i + 1 = omega arith in rw same (omega arith)
  index_up i (suc d) =
      let next : i + 1 + suc d ≡ i + 1 + d + 1 = omega arith in
      rw next (omega (arith, index_up i d, index-suc (i + 1 + d)))

  pub index-le : (i j : ℕ) → i < j → condition_index f (i + 1) ≤ condition_index f j
  index-le i j lt =
      let d = j - (i + 1) in
      let e : i + 1 + d ≡ j = omega arith in
      subst (λ k. condition_index f (i + 1) ≤ condition_index f k) e (index_up i d)

  inside : (i : ℕ) → i < params f → (condition_index f (i + 1) - 1) / 64 < num_words f
  unfolding num_words
  inside i lt = omega (arith, index-le i (params f) lt)

  -- The two places of the range of parameter `i` in the container.
  pub range_of :
      (i : ℕ)
      → i < params f
      → (condition_index f i ≤ condition_index f (i + 1) - 1)
        × (condition_index f (i + 1) - 1 < condition_index f i + 64)
        × (condition_index f (i + 1) - 1 - condition_index f i + 1 ≡ width (f.bitsize i))
        × ((condition_index f (i + 1) - 1) / 64 < num_words f)
  range_of i lt =
      let next = index-suc i in
      let most = width-le (f.bitsize i) (ok.bits_to i) in
      let least = two_pow-pos (2 * f.bitsize i) in
      (
        omega (arith, next, least),
        omega (arith, next, most, least),
        omega (arith, next, least),
        inside i lt,
      )

  -- A condition has no bits above its width.
  pub bit-get_condition_ge :
      (conditions : List ℕ) (i b : ℕ)
      → i < params f
      → width (f.bitsize i) ≤ b
      → bit (get_condition f conditions i) b ≡ false
  unfolding get_condition
  bit-get_condition_ge conditions i b hi wide =
      let (le, lt, size, room) = range_of i hi in
      ground (
        arith,
        size,
        bit-get conditions (condition_index f i) (condition_index f (i + 1) - 1) b le lt,
      )

  bit-get_set_self :
      (conditions : List ℕ) (i c b : ℕ)
      → num_words f ≤ length conditions
      → i < params f
      → bit (get_condition f (set_condition f conditions i c) i) b
        ≡ (bit c b && ltb b (width (f.bitsize i)))
  unfolding get_condition set_condition
  bit-get_set_self conditions i c b long hi =
      let (le, lt, wide, room) = range_of i hi in
      let n = condition_index f (i + 1) - 1 - condition_index f i + 1 in
      ap (λ x. bit x b)
        (get-set_range conditions (condition_index f i) (condition_index f (i + 1) - 1) c le lt
          (omega (arith, room)))
      ∙ bit-bit_and c (mask n) b
      ∙ ap (λ x. bit c b && x)
          (bit-mask n b (omega (arith, wide, width-le (f.bitsize i) (ok.bits_to i)))
            ∙ ap (ltb b) wide)

  pub get_set_ne :
      (conditions : List ℕ) (i j c : ℕ)
      → num_words f ≤ length conditions
      → i < params f
      → j < params f
      → ¬ (i ≡ j)
      → get_condition f (set_condition f conditions j c) i ≡ get_condition f conditions i
  unfolding get_condition set_condition
  get_set_ne conditions i j c long hi hj ne =
      let (le, lt, wide, room) = range_of i hi in
      let (le', lt', wide', room') = range_of j hj in
      let apart : (condition_index f (i + 1) - 1 < condition_index f j)
          ⊎ (condition_index f (j + 1) - 1 < condition_index f i) =
        elim (tri i j) [
          | inl l ↦ inl (omega (arith, index-le i j l, index-suc i, two_pow-pos (2 * f.bitsize i)))
          | inr (inl e) ↦ absurd (ne e)
          | inr (inr g) ↦
              inr (omega (arith, index-le j i g, index-suc j, two_pow-pos (2 * f.bitsize j)))
        ] in
      get-set_range_apart conditions (condition_index f j) (condition_index f (j + 1) - 1) c le' lt'
        (omega (arith, room')) (condition_index f i) (condition_index f (i + 1) - 1) le lt apart

  -- What is written at `j` and read at `i`.
  pub bit-get_set :
      (conditions : List ℕ) (i j c b : ℕ)
      → num_words f ≤ length conditions
      → i < params f
      → j < params f
      → bit (get_condition f (set_condition f conditions j c) i) b ≡ (
          if i == j
          then bit c b && ltb b (width (f.bitsize i))
          else bit (get_condition f conditions i) b)
  bit-get_set conditions i j c b long hi hj = elim (ℕ_discrete i j) [
    | yes e ↦
        let same : (i == j) ≡ true = ground arith in
        rw same (rw (sym e) (bit-get_set_self conditions i c b long hi))
    | no ne ↦
        let differ : (i == j) ≡ false = ground arith in
        rw differ (ap (λ x. bit x b) (get_set_ne conditions i j c long hi hj ne))
  ]
