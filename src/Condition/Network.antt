-- ===== src/Condition/Network.antt =====
-- Words made of one input by `|`, `>>` and masks, as the projections of src/condition.cpp make them. For
-- each bit of such a word the bits of the input that reach it are computed, which decides whether
-- the word is a projection.
use native.Mathlib.Decide.{ℕ_discrete}
use nldtool.Base.{
  sym, ℕ, zero, suc, ◌+◌, ◌<◌, ◌≡◌, refl, arith, Bool, true, false, List, [], ◌∷◌, ◌++◌, bit_and,
  bit_or, ◌==◌, ◌&&◌, ◌||◌, if◌then◌else◌, ◌∙◌, Bool-cases, inl, inr,
}
use nldtool.Bits.{bit, shr, bit-bit_and, bit-bit_or, bit-shr, bit-zero}

pub data Net : Type 0 where
  none : Net
  input : Net
  or : Net → Net → Net
  shift : Net → ℕ → Net
  masked : Net → ℕ → Net
  mask_of : ℕ → Net → Net

unfoldable pub eval : Net → ℕ → ℕ
eval none c = 0
eval input c = c
eval (or a b) c = bit_or (eval a c) (eval b c)
eval (shift a k) c = shr (eval a c) k
eval (masked a m) c = bit_and (eval a c) m
eval (mask_of m a) c = bit_and m (eval a c)

unfoldable pub sources : Net → ℕ → List ℕ
sources none i = []
sources input i = i ∷ []
sources (or a b) i = sources a i ++ sources b i
sources (shift a k) i = sources a (k + i)
sources (masked a m) i = let rest = sources a i in if bit m i then rest else []
sources (mask_of m a) i = let rest = sources a i in if bit m i then rest else []

-- One of the bits listed is set.
unfoldable pub any_of : ℕ → List ℕ → Bool
any_of c [] = false
any_of c (p ∷ rest) = bit c p || any_of c rest

any_of-append : (c : ℕ) (s t : List ℕ) → any_of c (s ++ t) ≡ (any_of c s || any_of c t)
unfolding any_of
any_of-append c [] t = refl
any_of-append c (p ∷ s) t = ground (arith, any_of-append c s t)

any_of-if : (c : ℕ) (b : Bool) (s : List ℕ) → any_of c (if b then s else []) ≡ (any_of c s && b)
unfolding any_of
any_of-if c true s = ground arith
any_of-if c false s = ground arith

bit-eval : (n : Net) (c i : ℕ) → bit (eval n c) i ≡ any_of c (sources n i)
unfolding eval sources
bit-eval none c i = unfold any_of in bit-zero i
bit-eval input c i = unfold any_of in ground arith
bit-eval (or a b) c i = ground (
  arith,
  bit-bit_or (eval a c) (eval b c) i,
  any_of-append c (sources a i) (sources b i),
  bit-eval a c i,
  bit-eval b c i,
)
bit-eval (shift a k) c i = bit-shr (eval a c) k i ∙ bit-eval a c (k + i)
bit-eval (masked a m) c i =
    ground (arith, bit-bit_and (eval a c) m i, any_of-if c (bit m i) (sources a i), bit-eval a c i)
bit-eval (mask_of m a) c i =
    ground (arith, bit-bit_and m (eval a c) i, any_of-if c (bit m i) (sources a i), bit-eval a c i)

-- Some value below `n` that `place` sends to `i` is possible.
unfoldable pub possible : ℕ → (ℕ → ℕ) → ℕ → ℕ → Bool
possible zero place c i = false
possible (suc n) place c i = (place n == i && bit c n) || possible n place c i

unfoldable pub owners : ℕ → (ℕ → ℕ) → ℕ → List ℕ
owners zero place i = []
owners (suc n) place i = let rest = owners n place i in if place n == i then n ∷ rest else rest

possible-any_of :
    (n : ℕ) (place : ℕ → ℕ) (c i : ℕ) → possible n place c i ≡ any_of c (owners n place i)
possible-any_of zero place c i = unfold possible owners any_of in refl
possible-any_of (suc n) place c i =
    let step : possible (suc n) place c i ≡ ((place n == i && bit c n) || possible n place c i) =
      unfold possible in refl in
    let list : owners (suc n) place i
        ≡ (if place n == i then n ∷ owners n place i else owners n place i) =
      unfold owners in refl in
    rw (step, list)
      (elim (Bool-cases (place n == i)) [
        | inl t ↦ rw (t, possible-any_of n place c i) (unfold any_of in ground arith)
        | inr f ↦ rw (f, possible-any_of n place c i) (ground arith)
      ])

unfoldable pub member : ℕ → List ℕ → Bool
member p [] = false
member p (q ∷ rest) = p == q || member p rest

unfoldable pub subset : List ℕ → List ℕ → Bool
subset [] t = true
subset (p ∷ s) t = member p t && subset s t

any_of-member : (c p : ℕ) (t : List ℕ) → member p t ≡ true → bit c p ≡ true → any_of c t ≡ true
unfolding member any_of
any_of-member c p [] m b = ground arith
any_of-member c p (q ∷ t) m b = elim (Bool-cases (p == q)) [
  | inl e ↦ let same : p ≡ q = ground arith in ground (arith, same)
  | inr f ↦ ground (arith, any_of-member c p t)
]

any_of-subset : (c : ℕ) (s t : List ℕ) → subset s t ≡ true → any_of c s ≡ true → any_of c t ≡ true
unfolding subset any_of
any_of-subset c [] t h a = ground arith
any_of-subset c (p ∷ s) t h a = ground (arith, any_of-member c p t, any_of-subset c s t)

-- The word's first `w` bits are the projection by `place` of an input of `n` bits.
unfoldable pub projects : ℕ → ℕ → (ℕ → ℕ) → Net → Bool
projects n zero place net = true
projects n (suc w) place net =
    (subset (sources net w) (owners n place w) && subset (owners n place w) (sources net w))
    && projects n w place net

Bool_ext : (a b : Bool) → (a ≡ true → b ≡ true) → (b ≡ true → a ≡ true) → a ≡ b
Bool_ext true true f g = refl
Bool_ext true false f g = sym (f refl)
Bool_ext false true f g = g refl
Bool_ext false false f g = refl

and_parts : (a b c : Bool) → ((a && b) && c) ≡ true → (a ≡ true) × (b ≡ true) × (c ≡ true)
and_parts true true true h = (refl, refl, refl)
and_parts true true false h = absurd (ground arith)
and_parts true false c h = absurd (ground arith)
and_parts false b c h = absurd (ground arith)

pub projects-possible :
    (n w : ℕ) (place : ℕ → ℕ) (net : Net)
    → projects n w place net ≡ true
    → (c i : ℕ) → i < w
    → bit (eval net c) i ≡ possible n place c i
projects-possible n zero place net h c i lt = absurd (omega arith)
projects-possible n (suc w) place net h c i lt =
    let s = sources net w in
    let t = owners n place w in
    let parts =
      and_parts (subset s t) (subset t s) (projects n w place net) (unfold projects in h) in
    elim (ℕ_discrete i w) [
      | yes e ↦
          rw (e, bit-eval net c w, possible-any_of n place c w)
            (Bool_ext (any_of c s) (any_of c t) (any_of-subset c s t parts.0)
              (any_of-subset c t s parts.1))
      | no ne ↦ projects-possible n w place net parts.2 c i (omega arith)
    ]
