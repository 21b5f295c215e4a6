-- ===== src/Bitslice/Symmetric.antt =====
-- The symmetries that src/functions.h declares are symmetries: inputs of an exclusive or may be exchanged.
use nldtool.Base.{
  ℕ, zero, suc, ◌+◌, ◌^◌, ◌<◌, ◌≡◌, ◌≢◌, refl, arith, ap, ap₂, sym, ◌∙◌, Bool, true, false, List,
  [], ◌∷◌, ◌++◌, length, length-set, set, get_or, get_or-set_ne, bit_xor, xor, xor-xor_self,
}
use nldtool.Bits.{bit, bit_ext, bit-bit_xor, bit-zero, two_pow-suc, two_pow-lt}
use nldtool.Pair.{Pair, exor}
use nldtool.Functions.{accumulate, xor_f}
use nldtool.Bitslice.{no_pair}
use nldtool.Bitslice.Classes.{xor_of, xor_all, class_of_three}
use nldtool.Bitslice.Sorted.{swap_places}
use nldtool.Bitslice.Swap.{IsSymmetric, length-swap_places}

small : (n : ℕ) → n < 2 ^ n
small zero = omega arith
small (suc n) = omega (arith, two_pow-suc n, small n)

-- Numbers with the same bits are equal.
same_bits-eq : (x y : ℕ) → ((i : ℕ) → bit x i ≡ bit y i) → x ≡ y
same_bits-eq x y h =
    let top = suc (x + y) in
    bit_ext top x y (omega (arith, small x, two_pow-lt x top (omega arith)))
      (omega (arith, small y, two_pow-lt y top (omega arith))) (λ i lt. h i)

swap_right : (p q r : Bool) → xor (xor p q) r ≡ xor (xor p r) q
unfolding xor
swap_right true true true = refl
swap_right true true false = refl
swap_right true false true = refl
swap_right true false false = refl
swap_right false true true = refl
swap_right false true false = refl
swap_right false false true = refl
swap_right false false false = refl

xor_right_comm : (a v x : ℕ) → bit_xor (bit_xor a v) x ≡ bit_xor (bit_xor a x) v
xor_right_comm a v x = same_bits-eq (bit_xor (bit_xor a v) x) (bit_xor (bit_xor a x) v) (λ i.
    bit-bit_xor (bit_xor a v) x i
    ∙ ap (λ q. xor q (bit x i)) (bit-bit_xor a v i)
    ∙ swap_right (bit a i) (bit v i) (bit x i)
    ∙ sym (bit-bit_xor (bit_xor a x) v i ∙ ap (λ q. xor q (bit v i)) (bit-bit_xor a x i)))

xor_cancel : (a v : ℕ) → bit_xor (bit_xor a v) v ≡ a
xor_cancel a v = same_bits-eq (bit_xor (bit_xor a v) v) a (λ i.
    bit-bit_xor (bit_xor a v) v i
    ∙ ap (λ q. xor q (bit v i)) (bit-bit_xor a v i)
    ∙ xor-xor_self (bit a i) (bit v i))

pair_eq : (p q : Pair) → p.first ≡ q.first → p.second ≡ q.second → p ≡ q
pair_eq p q a b = ap₂ (λ x y. record { first = x; second = y }) a b

exor_right_comm : (a v x : Pair) → exor (exor a v) x ≡ exor (exor a x) v
unfolding exor
exor_right_comm a v x =
    pair_eq (exor (exor a v) x) (exor (exor a x) v) (xor_right_comm a.first v.first x.first)
      (xor_right_comm a.second v.second x.second)

exor_cancel : (a v : Pair) → exor (exor a v) v ≡ a
unfolding exor
exor_cancel a v =
    pair_eq (exor (exor a v) v) a (xor_cancel a.first v.first) (xor_cancel a.second v.second)

-- The sum of a list, from a value on.
sum_from : List Pair → Pair → Pair
sum_from xs a = accumulate exor xs a

sum_out : (xs : List Pair) (a v : Pair) → sum_from xs (exor a v) ≡ exor (sum_from xs a) v
unfolding sum_from
sum_out [] a v = refl
sum_out (x ∷ xs) a v = ap (sum_from xs) (exor_right_comm a v x) ∙ sum_out xs (exor a x) v

sum_set :
    (xs : List Pair) (i : ℕ) (v a : Pair)
    → i < length xs
    → exor (sum_from (set xs i v) a) (get_or xs i no_pair) ≡ exor (sum_from xs a) v
unfolding sum_from
sum_set [] i v a lt = absurd (omega arith)
sum_set (x ∷ xs) zero v a lt =
    sym (sum_out xs (exor a v) x)
    ∙ ap (sum_from xs) (exor_right_comm a v x)
    ∙ sum_out xs (exor a x) v
sum_set (x ∷ xs) (suc i) v a lt = sum_set xs i v (exor a x) (omega arith)

-- Exchanging two places keeps the sum.
sum_swap :
    (xs : List Pair) (i j : ℕ) (a : Pair)
    → i < j
    → j < length xs
    → sum_from (swap_places no_pair xs i j) a ≡ sum_from xs a
unfolding swap_places
sum_swap xs i j a lt hj =
    let vi = get_or xs i no_pair in
    let vj = get_or xs j no_pair in
    let ne : i ≢ j = λ e. absurd (omega (arith, e, lt)) in
    let one = set xs i vj in
    let at_j : get_or one j no_pair ≡ vj = get_or-set_ne xs i j vj no_pair ne in
    let outer = sum_set one j vi a (omega (arith, length-set xs i vj, hj)) in
    let inner = sum_set xs i vj a (omega arith) in
    let both : exor (sum_from (set one j vi) a) vj ≡ exor (sum_from xs a) vj =
      ap (exor (sum_from (set one j vi) a)) (sym at_j) ∙ outer ∙ inner in
    sym (exor_cancel (sum_from (set one j vi) a) vj)
    ∙ ap (λ q. exor q vj) both
    ∙ exor_cancel (sum_from xs a) vj

set-append :
    (xs ys : List Pair) (i : ℕ) (v : Pair) → i < length xs → set (xs ++ ys) i v ≡ set xs i v ++ ys
set-append [] ys i v lt = absurd (omega arith)
set-append (x ∷ xs) ys zero v lt = refl
set-append (x ∷ xs) ys (suc i) v lt = ap (λ q. x ∷ q) (set-append xs ys i v (omega arith))

get_or-append :
    (xs ys : List Pair) (i : ℕ) → i < length xs → get_or (xs ++ ys) i no_pair ≡ get_or xs i no_pair
get_or-append [] ys i lt = absurd (omega arith)
get_or-append (x ∷ xs) ys zero lt = refl
get_or-append (x ∷ xs) ys (suc i) lt = get_or-append xs ys i (omega arith)

swap-append :
    (xs ys : List Pair) (i j : ℕ)
    → i < length xs
    → j < length xs
    → swap_places no_pair (xs ++ ys) i j ≡ swap_places no_pair xs i j ++ ys
unfolding swap_places
swap-append xs ys i j hi hj =
    let vi = get_or xs i no_pair in
    let vj = get_or xs j no_pair in
    rw (get_or-append xs ys i hi, get_or-append xs ys j hj)
      (ap (λ q. set q j vi) (set-append xs ys i vj hi)
        ∙ set-append (set xs i vj) ys j vi (omega (arith, length-set xs i vj)))

xor_left_false : (b : Bool) → xor false b ≡ b
unfolding xor
xor_left_false true = refl
xor_left_false false = refl

zero_xor : (x : ℕ) → bit_xor 0 x ≡ x
zero_xor x =
    same_bits-eq (bit_xor 0 x) x
      (λ i. bit-bit_xor 0 x i ∙ ap (λ q. xor q (bit x i)) (bit-zero i) ∙ xor_left_false (bit x i))

xor_all-sum : (xs : List Pair) → xor_all xs ≡ sum_from xs no_pair ∷ []
unfolding xor_all xor_f sum_from exor
xor_all-sum [] = refl
xor_all-sum (x ∷ rest) =
    ap (λ q. accumulate exor rest q ∷ [])
      (pair_eq x (exor no_pair x) (sym (zero_xor x.first)) (sym (zero_xor x.second)))

-- `XOR<N>` and `XORB<N>`.
pub xor-IsSymmetric : (bits n : ℕ) → IsSymmetric (xor_of bits n)
xor-IsSymmetric bits n = record {
  same_bits = λ i j lt hj alike. refl;
  table_kept = λ i j xs lt hj alike all.
      let hj' : j < length xs = ground (arith, alike, all) in
      let ys = swap_places no_pair xs i j in
      (
        ys,
        length-swap_places no_pair xs i j (omega arith) hj' ∙ all,
        swap-append xs (xor_all xs) i j (omega arith) hj'
            ∙ ap (λ q. ys ++ q)
                (xor_all-sum xs
                  ∙ ap (λ q. q ∷ []) (sym (sum_swap xs i j no_pair lt hj'))
                  ∙ sym (xor_all-sum ys)),
      );
}

-- `ONX`, `IF` and `MAJ`, which declare no symmetry.
pub three-IsSymmetric : (g : Pair → Pair → Pair → Pair) → IsSymmetric (class_of_three g)
three-IsSymmetric g = record {
  same_bits = λ i j lt hj alike. refl;
  table_kept = λ i j xs lt hj alike all. absurd (omega (arith, alike, lt));
}
