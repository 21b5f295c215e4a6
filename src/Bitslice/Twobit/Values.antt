-- ===== src/Bitslice/Twobit/Values.antt =====
-- `Collect` of src/propagate_twobit.h: what it compares are pairs of bits, and its numbers say whether they are equal or
-- opposite.
use nldtool.Base.{
  ℕ, zero, suc, ◌+◌, ◌*◌, ◌/◌, ◌%◌, ◌<◌, ◌≡◌, refl, arith, ap, ap₂, sym, ◌∙◌, Bool, true, false,
  List, [], ◌∷◌, ◌==◌, ◌&&◌, not, length, Bool-cases, inl, inr, ltb, if◌then◌else◌, bit_and, bit_or,
  get_or, tabulate-agree,
}
use native.Mathlib.Decide.{ℕ_discrete}
use nldtool.Bits.{shl, shr, bit_and-one}
use nldtool.Pair.{Pair}
use nldtool.Bitslice.{BitFunction, no_pair}
use nldtool.Bitslice.Conditions.{fits_bits}
use nldtool.Bitslice.Twobit.{reduce_pair, reduce_from, compare_pairs}

-- Both members are bits.
abbrev pub IsBits : Pair → Type 0
IsBits p = (p.first < 2) × (p.second < 2)

-- Both members agree, or neither does.
abbrev pub same_pair : Pair → Pair → Bool
same_pair p q = p.first == q.first && p.second == q.second

abbrev pub opposite_pair : Pair → Pair → Bool
opposite_pair p q = not (p.first == q.first) && not (p.second == q.second)

pair_of : ℕ → Pair
pair_of n = record { first = n % 2; second = n / 2 % 2 }

compared : ℕ → List Bool
unfolding compare_pairs shl
compared n =
    let p = pair_of n in
    let q = pair_of (n / 4) in (compare_pairs p q == 0) ∷ (compare_pairs p q == 3) ∷ []

expected : ℕ → List Bool
expected n = let p = pair_of n in let q = pair_of (n / 4) in same_pair p q ∷ opposite_pair p q ∷ []

table : (n : ℕ) → n < 16 → compared n ≡ expected n
unfolding compared expected pair_of
table n lt = tabulate-agree 16 compared expected refl n lt

compared_of : Pair → Pair → List Bool
compared_of p q = (compare_pairs p q == 0) ∷ (compare_pairs p q == 3) ∷ []

expected_of : Pair → Pair → List Bool
expected_of p q = same_pair p q ∷ opposite_pair p q ∷ []

pair_eq : (p q : Pair) → p.first ≡ q.first → p.second ≡ q.second → p ≡ q
pair_eq p q a b = ap₂ (λ x y. record { first = x; second = y }) a b

-- The number that `Collect` computes of two pairs of bits is 0 for equal and 3 for opposite ones.
pub compare_pairs-same :
    (p q : Pair)
    → IsBits p
    → IsBits q
    → ((compare_pairs p q == 0) ≡ same_pair p q) × ((compare_pairs p q == 3) ≡ opposite_pair p q)
unfolding pair_of compared expected compared_of expected_of
compare_pairs-same p q hp hq =
    let n = p.first + 2 * p.second + 4 * (q.first + 2 * q.second) in
    let left : pair_of n ≡ p =
      pair_eq (pair_of n) p (omega (arith, hp.0, hp.1, hq.0, hq.1))
        (omega (arith, hp.0, hp.1, hq.0, hq.1)) in
    let right : pair_of (n / 4) ≡ q =
      pair_eq (pair_of (n / 4)) q (omega (arith, hp.0, hp.1, hq.0, hq.1))
        (omega (arith, hp.0, hp.1, hq.0, hq.1)) in
    let same : compared_of p q ≡ expected_of p q =
      ap₂ compared_of (sym left) (sym right)
      ∙ table n (omega (arith, hp.0, hp.1, hq.0, hq.1))
      ∙ ap₂ expected_of left right in
    (ap (λ (l : List Bool). get_or l 0 true) same, ap (λ (l : List Bool). get_or l 1 true) same)

-- The pair of bits that stands for the two values of a parameter of `n` bits: a bit for itself; of a longer parameter the
-- lowest bits where they agree, and otherwise (0, 1) if the first value is greater, (1, 0) if the second one is.
abbrev pub shown : ℕ → Pair → Pair
shown n p =
    if n == 1
    then p
    else if p.first % 2 == p.second % 2
    then record { first = p.first % 2; second = p.second % 2 }
    else if ltb p.second p.first
    then record { first = 0; second = 1 }
    else record { first = 1; second = 0 }

pub shown-IsBits : (n : ℕ) (p : Pair) → fits_bits n p ≡ true → IsBits (shown n p)
shown-IsBits n p h = elim (ℕ_discrete n 1) [
  | yes e ↦
      let t : (n == 1) ≡ true = ground arith in
      let h' = rw e at h in rw t (ground (arith, h'), ground (arith, h'))
  | no ne ↦
      let t : (n == 1) ≡ false = ground arith in
      rw t (elim (Bool-cases (p.first % 2 == p.second % 2)) [
        | inl a ↦ rw a (omega arith, omega arith)
        | inr a ↦ rw a (elim (Bool-cases (ltb p.second p.first)) [
          | inl b ↦ rw b (omega arith, omega arith)
          | inr b ↦ rw b (omega arith, omega arith)
        ])
      ])
]

-- What the first loop of `Collect` leaves of a longer parameter, from the lowest bits and the order of the values.
folded : ℕ → ℕ → Bool → Pair
folded a b greater =
    let v = if a == b then bit_or a (shl b 1) else shl 1 (if greater then 1 else 0) in
    record { first = bit_and v 1; second = bit_and (shr v 1) 1 }

folded-shown :
    (a b : ℕ) (greater : Bool)
    → a < 2
    → b < 2
    → folded a b greater ≡ (
        if a == b
        then record { first = a; second = b }
        else if greater
        then record { first = 0; second = 1 }
        else record { first = 1; second = 0 })
unfolding folded shl shr
folded-shown zero zero greater ha hb = refl
folded-shown zero (suc zero) true ha hb = refl
folded-shown zero (suc zero) false ha hb = refl
folded-shown (suc zero) zero true ha hb = refl
folded-shown (suc zero) zero false ha hb = refl
folded-shown (suc zero) (suc zero) greater ha hb = refl
folded-shown (suc (suc a)) b greater ha hb = absurd (omega arith)
folded-shown zero (suc (suc b)) greater ha hb = absurd (omega arith)
folded-shown (suc zero) (suc (suc b)) greater ha hb = absurd (omega arith)

reduce_pair-shown : (n : ℕ) (p : Pair) → reduce_pair n p ≡ shown n p
unfolding reduce_pair folded
reduce_pair-shown n p = elim (Bool-cases (n == 1)) [
  | inl t ↦ rw t refl
  | inr e ↦ rw e (
      ap₂ (λ a b. folded a b (ltb p.second p.first)) (bit_and-one p.first) (bit_and-one p.second)
      ∙ folded-shown (p.first % 2) (p.second % 2) (ltb p.second p.first) (omega arith)
          (omega arith))
]

pub get_or-reduce_from :
    (f : BitFunction) (val : List Pair) (i k : ℕ)
    → k < length val
    → get_or (reduce_from f val i) k no_pair ≡ shown (f.bitsize (i + k)) (get_or val k no_pair)
unfolding reduce_from
get_or-reduce_from f [] i k lt = absurd (omega arith)
get_or-reduce_from f (p ∷ val) i zero lt =
    let same : i + 0 ≡ i = omega arith in rw same (reduce_pair-shown (f.bitsize i) p)
get_or-reduce_from f (p ∷ val) i (suc k) lt =
    let next : i + suc k ≡ i + 1 + k = omega arith in
    rw next (get_or-reduce_from f val (i + 1) k (omega arith))
