-- ===== src/Bitslice/Bitwise.antt =====
-- The bitwise functions of src/functions.h meet what the templates of src/bitslice.h rely on.
use nldtool.Base.{
  ℕ, zero, suc, ◌+◌, ◌^◌, ◌≤◌, ◌<◌, ◌≡◌, refl, arith, ap, true, List, [], ◌∷◌, length, get_or,
}
use nldtool.Bits.{bit_xor-lt, bit_or-lt, bit_and-lt, two_pow-pos}
use nldtool.Pair.{Pair, conj, disj, exor, negate}
use nldtool.Functions.{pair_operators, onx, if_f, maj, xor_f}
use nldtool.Bitslice.{BitFunction, no_pair}
use nldtool.Bitslice.Conditions.{IsBitFunction, fits}
use nldtool.Bitslice.Classes.{class_of_three, onx_class, if_class, maj_class, xor_of, xor_all}

-- The operators keep the number of bits.
abbrev Small : ℕ → Pair → Type 0
Small n p = (p.first < 2 ^ n) × (p.second < 2 ^ n)

exor-Small : (n : ℕ) (p q : Pair) → Small n p → Small n q → Small n (exor p q)
unfolding exor
exor-Small n p q (a, b) (c, d) = (bit_xor-lt n _ _ a c, bit_xor-lt n _ _ b d)

disj-Small : (n : ℕ) (p q : Pair) → Small n p → Small n q → Small n (disj p q)
unfolding disj
disj-Small n p q (a, b) (c, d) = (bit_or-lt n _ _ a c, bit_or-lt n _ _ b d)

conj-Small : (n : ℕ) (p q : Pair) → Small n q → Small n (conj p q)
unfolding conj
conj-Small n p q (c, d) = (bit_and-lt n _ _ c, bit_and-lt n _ _ d)

negate-Small : (p : Pair) → Small 1 (negate p)
unfolding negate
negate-Small p = (ground arith, ground arith)

xor_f-Small :
    (n : ℕ) (x : Pair) (rest : List Pair)
    → Small n x
    → ((i : ℕ) → Small n (get_or rest i no_pair))
    → Small n (xor_f pair_operators x rest)
unfolding xor_f
xor_f-Small n x [] h hs = h
xor_f-Small n x (y ∷ rest) h hs =
    xor_f-Small n (exor x y) rest (exor-Small n x y h (hs 0)) (λ i. hs (suc i))

-- What is read from pairs that fit is small, also behind the end.
fits-Small :
    (f : BitFunction) (n : ℕ) (xs : List Pair) (j : ℕ)
    → ((i : ℕ) → f.bitsize i ≡ n)
    → fits f xs j ≡ true
    → (i : ℕ) → Small n (get_or xs i no_pair)
unfolding fits
fits-Small f n [] j same h i = (two_pow-pos n, two_pow-pos n)
fits-Small f n (x ∷ xs) j same h zero =
    let h' = rw (same j) at h in (ground (arith, h'), ground (arith, h'))
fits-Small f n (x ∷ xs) j same h (suc i) = fits-Small f n xs (j + 1) same (ground (arith, h)) i

Small-fits :
    (f : BitFunction) (n : ℕ) (x : Pair) (j : ℕ)
    → f.bitsize j ≡ n
    → Small n x
    → fits f (x ∷ []) j ≡ true
unfolding fits
Small-fits f n x j same (a, b) = rw same (ground (arith, a, b))

three-IsBitFunction :
    (g : Pair → Pair → Pair → Pair)
    → ((x y z : Pair) → Small 1 x → Small 1 y → Small 1 z → Small 1 (g x y z))
    → IsBitFunction (class_of_three g)
three-IsBitFunction g small = record {
  some_input = omega arith;
  bits_from = λ i. omega arith;
  bits_to = λ i. omega arith;
  outputs_all = λ xs all. refl;
  outputs_fit = λ xs all fit.
      let at = fits-Small (class_of_three g) 1 xs 0 (λ i. refl) fit in
      Small-fits (class_of_three g) 1
        (g (get_or xs 0 no_pair) (get_or xs 1 no_pair) (get_or xs 2 no_pair)) 3 refl
        (small (get_or xs 0 no_pair) (get_or xs 1 no_pair) (get_or xs 2 no_pair) (at 0) (at 1)
          (at 2));
}

pub onx-IsBitFunction : IsBitFunction onx_class
unfolding onx
onx-IsBitFunction = three-IsBitFunction (onx pair_operators) (λ x y z hx hy hz.
    exor-Small 1 y (disj x (negate z)) hy (disj-Small 1 x (negate z) hx (negate-Small z)))

pub if-IsBitFunction : IsBitFunction if_class
unfolding if_f
if-IsBitFunction = three-IsBitFunction (if_f pair_operators) (λ x y z hx hy hz.
    disj-Small 1 (conj x y) (conj (negate x) z) (conj-Small 1 x y hy)
      (conj-Small 1 (negate x) z hz))

pub maj-IsBitFunction : IsBitFunction maj_class
unfolding maj
maj-IsBitFunction = three-IsBitFunction (maj pair_operators) (λ x y z hx hy hz.
    exor-Small 1 (exor (conj x y) (conj y z)) (conj z x)
      (exor-Small 1 (conj x y) (conj y z) (conj-Small 1 x y hy) (conj-Small 1 y z hz))
      (conj-Small 1 z x hx))

xor_all-Small :
    (n : ℕ) (xs : List Pair)
    → ((i : ℕ) → Small n (get_or xs i no_pair))
    → Small n (get_or (xor_all xs) 0 no_pair)
unfolding xor_all
xor_all-Small n [] h = h 0
xor_all-Small n (x ∷ rest) h = xor_f-Small n x rest (h 0) (λ i. h (suc i))

xor_all-one : (xs : List Pair) → xor_all xs ≡ get_or (xor_all xs) 0 no_pair ∷ []
unfolding xor_all
xor_all-one [] = refl
xor_all-one (x ∷ rest) = refl

pub xor-IsBitFunction : (bits n : ℕ) → 1 ≤ bits → bits ≤ 3 → 1 ≤ n → IsBitFunction (xor_of bits n)
xor-IsBitFunction bits n least most some = record {
  some_input = some;
  bits_from = λ i. least;
  bits_to = λ i. most;
  outputs_all = λ xs all. ap length (xor_all-one xs);
  outputs_fit = λ xs all fit. rw (xor_all-one xs) (
      Small-fits (xor_of bits n) bits (get_or (xor_all xs) 0 no_pair) n refl
        (xor_all-Small bits xs (fits-Small (xor_of bits n) bits xs 0 (λ i. refl) fit)));
}
