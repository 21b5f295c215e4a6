-- ===== src/TwobitContainer/Degrees.antt =====
-- `ComputeTwobitDegrees` of src/twobit_container.cpp against a count over the distinct conditions.
use nldtool.Base.{
  ℕ, ◌+◌, ◌%◌, ◌<◌, ◌≡◌, refl, arith, ap, ap₂, sym, ◌∙◌, subst, Bool, true, false, List, [], ◌∷◌,
  ◌||◌, ◌&&◌, ◌==◌, if◌then◌else◌, Bool-cases, All, get_or, length, length-set, get_or-set, inl,
  inr,
}
use native.Mathlib.Decide.{ℕ_discrete}
use nldtool.Bitmask.{Bitpos}
use nldtool.TwobitContainer.{
  TwobitCondition, TwobitContainer, twobit_less, index_from_bitpos, inc_twobit_degree, degrees_from,
  compute_twobit_degrees, no_twobit,
}
use nldtool.TwobitContainer.Order.{IsTwobitCondition, neither_less-eq, not_less_self}

abbrev same_bitpos : Bitpos → Bitpos → Bool
same_bitpos a b = a.word == b.word && a.bit_index == b.bit_index

abbrev pub same_twobit : TwobitCondition → TwobitCondition → Bool
same_twobit t u =
    same_bitpos t.first u.first && same_bitpos t.second u.second && t.condition == u.condition

same_twobit-eq : (t u : TwobitCondition) → same_twobit t u ≡ true → t ≡ u
same_twobit-eq t u h =
    let fw : t.first.word ≡ u.first.word = ground (arith, h) in
    let fb : t.first.bit_index ≡ u.first.bit_index = ground (arith, h) in
    let sw : t.second.word ≡ u.second.word = ground (arith, h) in
    let sb : t.second.bit_index ≡ u.second.bit_index = ground (arith, h) in
    let kind : t.condition ≡ u.condition = ground (arith, h) in
    let first : t.first ≡ u.first = ap₂ (λ x y. record { word = x; bit_index = y }) fw fb in
    let second : t.second ≡ u.second = ap₂ (λ x y. record { word = x; bit_index = y }) sw sb in
    ap (λ x. record t { first = x }) first
    ∙ ap (λ y. record t { first = u.first; second = y }) second
    ∙ ap (λ z. record { first = u.first; second = u.second; condition = z }) kind

same_twobit_self : (t : TwobitCondition) → same_twobit t t ≡ true
same_twobit_self t = ground arith

-- The condition is in the list.
unfoldable pub occurs : TwobitCondition → List TwobitCondition → Bool
occurs t [] = false
occurs t (u ∷ us) = same_twobit t u || occurs t us

-- The list with each condition once.
unfoldable pub distinct : List TwobitCondition → List TwobitCondition
distinct [] = []
distinct (t ∷ ts) = let rest = distinct ts in if occurs t ts then rest else t ∷ rest

distinct-new :
    (t : TwobitCondition) (ts : List TwobitCondition)
    → occurs t ts ≡ false
    → distinct (t ∷ ts) ≡ t ∷ distinct ts
unfolding distinct
distinct-new t ts h = rw h refl

distinct-old :
    (t : TwobitCondition) (ts : List TwobitCondition)
    → occurs t ts ≡ true
    → distinct (t ∷ ts) ≡ distinct ts
unfolding distinct
distinct-old t ts h = rw h refl

-- How often the bit with the index `i` is in a condition, and in those of a list.
unfoldable pub uses : ℕ → ℕ → TwobitCondition → ℕ
uses word_size i t =
    (if index_from_bitpos word_size t.first == i then 1 else 0)
    + (if index_from_bitpos word_size t.second == i then 1 else 0)

unfoldable pub total_uses : ℕ → ℕ → List TwobitCondition → ℕ
total_uses word_size i [] = 0
total_uses word_size i (t ∷ ts) = uses word_size i t + total_uses word_size i ts

-- As `std::sort` leaves the list: no condition is less than one before it.
abbrev pub IsSorted : List TwobitCondition → Type 0
IsSorted [] = Unit
IsSorted (t ∷ ts) = All (λ u. twobit_less u t ≡ false) ts × IsSorted ts

-- A condition that is less than the first of a sorted list is not in it.
not_occurs :
    (tmp t : TwobitCondition) (ts : List TwobitCondition)
    → twobit_less tmp t ≡ true
    → All (λ u. twobit_less u t ≡ false) ts
    → occurs tmp ts ≡ false
unfolding occurs
not_occurs tmp t [] h a = refl
not_occurs tmp t (u ∷ us) h a =
    let rest = not_occurs tmp t us h a.1 in
    let differ : same_twobit tmp u ≡ false = elim (Bool-cases (same_twobit tmp u)) [
      | inr e ↦ e
      | inl e ↦
          let less : twobit_less u t ≡ true =
            ap (λ x. twobit_less x t) (sym (same_twobit-eq tmp u e)) ∙ h in
          absurd (ground (arith, less, a.0))
    ] in
    ground (arith, differ, rest)

module _ (word_size : ℕ) where
  -- The indices of a condition are inside the list of degrees.
  abbrev pub IsInside : ℕ → TwobitCondition → Type 0
  IsInside size t =
      (index_from_bitpos word_size t.first < size) × (index_from_bitpos word_size t.second < size)

  length-inc :
      (degrees : List ℕ) (pos : Bitpos)
      → length (inc_twobit_degree word_size degrees pos) ≡ length degrees
  unfolding inc_twobit_degree
  length-inc degrees pos = length-set degrees _ _

  get_or-inc :
      (degrees : List ℕ) (pos : Bitpos) (i : ℕ)
      → index_from_bitpos word_size pos < length degrees
      → get_or (inc_twobit_degree word_size degrees pos) i 0 % 256
        ≡ (get_or degrees i 0 + (if index_from_bitpos word_size pos == i then 1 else 0)) % 256
  unfolding inc_twobit_degree
  get_or-inc degrees pos i lt =
      let n = index_from_bitpos word_size pos in
      let at = get_or-set degrees n i ((get_or degrees n 0 + 1) % 256) 0 lt in
      elim (ℕ_discrete n i) [
        | yes e ↦
            let t : (n == i) ≡ true = ground (arith, e) in
            let at' = rw t at at in
            rw t (ap (λ x. x % 256) at' ∙ omega (arith, ap (λ x. get_or degrees x 0) e))
        | no ne ↦
            let t : (n == i) ≡ false = ground (arith, ne) in
            let at' = rw t at at in rw t (ap (λ x. x % 256) at' ∙ omega arith)
      ]

  abbrev added : List ℕ → TwobitCondition → List ℕ
  added degrees t =
      inc_twobit_degree word_size (inc_twobit_degree word_size degrees t.first) t.second

  get_or-added :
      (degrees : List ℕ) (t : TwobitCondition) (i : ℕ)
      → IsInside (length degrees) t
      → get_or (added degrees t) i 0 % 256 ≡ (get_or degrees i 0 + uses word_size i t) % 256
  unfolding uses
  get_or-added degrees t i (hf, hs) =
      let one = get_or-inc degrees t.first i hf in
      let two =
        get_or-inc (inc_twobit_degree word_size degrees t.first) t.second i
          (omega (arith, length-inc degrees t.first, hs)) in
      omega (arith, one, two)

  -- What the loop leaves behind a condition `tmp` that has been counted.
  abbrev Counted : ℕ → List ℕ → TwobitCondition → List TwobitCondition → ℕ × List ℕ → Type 0
  Counted count degrees tmp once r =
      (r.0 + 1 ≡ count + length once)
      × ((i : ℕ)
          → (get_or r.1 i 0 + uses word_size i tmp) % 256
            ≡ (get_or degrees i 0 + total_uses word_size i once) % 256)

  step_counted :
      (t tmp : TwobitCondition) (ts : List TwobitCondition) (count : ℕ) (degrees : List ℕ)
      → twobit_less tmp t ≡ true
      → degrees_from word_size (t ∷ ts) false tmp count degrees
        ≡ degrees_from word_size ts false t (count + 1) (added degrees t)
  unfolding degrees_from
  step_counted t tmp ts count degrees h =
      ap
        (λ b.
          degrees_from word_size ts false t (if b then count + 1 else count)
            (if b then added degrees t else degrees))
        h

  step_skipped :
      (t tmp : TwobitCondition) (ts : List TwobitCondition) (count : ℕ) (degrees : List ℕ)
      → twobit_less tmp t ≡ false
      → degrees_from word_size (t ∷ ts) false tmp count degrees
        ≡ degrees_from word_size ts false t count degrees
  unfolding degrees_from
  step_skipped t tmp ts count degrees h =
      ap
        (λ b.
          degrees_from word_size ts false t (if b then count + 1 else count)
            (if b then added degrees t else degrees))
        h

  degrees_from-Counted :
      (ts : List TwobitCondition) (tmp : TwobitCondition) (count : ℕ) (degrees : List ℕ)
      → All IsTwobitCondition (tmp ∷ ts)
      → All (IsInside (length degrees)) ts
      → IsSorted (tmp ∷ ts)
      → Counted count degrees tmp
          (distinct (tmp ∷ ts))
          (degrees_from word_size ts false tmp count degrees)
  unfolding degrees_from distinct occurs total_uses
  degrees_from-Counted [] tmp count degrees valid inside sorted = (omega arith, λ i. omega arith)
  degrees_from-Counted (t ∷ ts) tmp count degrees valid inside sorted =
      elim (Bool-cases (twobit_less tmp t)) [
        | inl less ↦
            let more = added degrees t in
            let long : length more ≡ length degrees =
              length-inc (inc_twobit_degree word_size degrees t.first) t.second
              ∙ length-inc degrees t.first in
            let (number, at) =
              degrees_from-Counted ts t (count + 1) more valid.1
                (subst (λ n. All (IsInside n) ts) (sym long) inside.1) sorted.1 in
            let none : occurs tmp (t ∷ ts) ≡ false =
              let later = not_occurs tmp t ts less sorted.1.0 in
              let differ : same_twobit tmp t ≡ false = elim (Bool-cases (same_twobit tmp t)) [
                | inr e ↦ e
                | inl e ↦
                    let again : twobit_less t t ≡ true =
                      ap (λ x. twobit_less x t) (sym (same_twobit-eq tmp t e)) ∙ less in
                    absurd (ground (arith, again, not_less_self t))
              ] in
              ground (arith, differ, later) in
            let r = degrees_from word_size ts false t (count + 1) more in
            let here : Counted count degrees tmp (tmp ∷ distinct (t ∷ ts)) r = (
              omega (arith, number),
              λ i. omega (arith, at i, get_or-added degrees t i inside.0),
            ) in
            subst (λ q. Counted count degrees tmp (distinct (tmp ∷ t ∷ ts)) q)
              (sym (step_counted t tmp ts count degrees less))
              (subst (λ l. Counted count degrees tmp l r) (sym (distinct-new tmp (t ∷ ts) none))
                here)
        | inr not_less ↦
            let same : tmp ≡ t = neither_less-eq tmp t valid.0 valid.1.0 not_less sorted.0.0 in
            let (number, at) = degrees_from-Counted ts t count degrees valid.1 inside.1 sorted.1 in
            let there : occurs tmp (t ∷ ts) ≡ true =
              let here = ap (λ x. same_twobit x t) same ∙ same_twobit_self t in
              ground (arith, here) in
            let r = degrees_from word_size ts false t count degrees in
            let here : Counted count degrees tmp (distinct (t ∷ ts)) r =
              (number, λ i. ap (λ x. (get_or r.1 i 0 + uses word_size i x) % 256) same ∙ at i) in
            subst (λ q. Counted count degrees tmp (distinct (tmp ∷ t ∷ ts)) q)
              (sym (step_skipped t tmp ts count degrees not_less))
              (subst (λ l. Counted count degrees tmp l r) (sym (distinct-old tmp (t ∷ ts) there))
                here)
      ]

  degrees-distinct :
      (ts : List TwobitCondition) (degrees : List ℕ)
      → All IsTwobitCondition ts
      → All (IsInside (length degrees)) ts
      → IsSorted ts
      → ((degrees_from word_size ts true no_twobit 0 degrees).0 ≡ length (distinct ts))
        × ((i : ℕ)
            → get_or ((degrees_from word_size ts true no_twobit 0 degrees).1) i 0 % 256
              ≡ (get_or degrees i 0 + total_uses word_size i (distinct ts)) % 256)
  unfolding degrees_from distinct total_uses
  degrees-distinct [] degrees valid inside sorted = (refl, λ i. omega arith)
  degrees-distinct (t ∷ ts) degrees valid inside sorted =
      let more = added degrees t in
      let long : length more ≡ length degrees =
        length-inc (inc_twobit_degree word_size degrees t.first) t.second
        ∙ length-inc degrees t.first in
      let (number, at) =
        degrees_from-Counted ts t 1 more valid
          (subst (λ n. All (IsInside n) ts) (sym long) inside.1) sorted in
      (omega (arith, number), λ i. omega (arith, at i, get_or-added degrees t i inside.0))

  -- For a sorted list of two-bit conditions with words and bits below 2 ^ 30 and indices inside the list of degrees,
  -- `ComputeTwobitDegrees` returns the number of distinct conditions, and adds to the degree of each bit how often the
  -- bit is in a distinct condition, up to the overflow of a byte.
  pub compute_twobit_degrees-distinct :
      (c : TwobitContainer)
      → All IsTwobitCondition (c.twobit_conditions)
      → All (IsInside (length (c.twobit_degree))) (c.twobit_conditions)
      → IsSorted (c.twobit_conditions)
      → let once = distinct (c.twobit_conditions) in
        ((compute_twobit_degrees word_size c).0 ≡ length once)
        × ((i : ℕ)
            → get_or ((compute_twobit_degrees word_size c).1.twobit_degree) i 0 % 256
              ≡ (get_or (c.twobit_degree) i 0 + total_uses word_size i once) % 256)
  unfolding compute_twobit_degrees
  compute_twobit_degrees-distinct c valid inside sorted =
      degrees-distinct (c.twobit_conditions) (c.twobit_degree) valid inside sorted
