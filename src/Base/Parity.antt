-- ===== src/Base/Parity.antt =====
-- Exclusive or on Bool, and the parity of a Boolean function over an initial segment of ℕ.
use Prim.Native.Nat.{ℕ, zero, suc, ◌<◌}
use mathlib.Core.Path.{◌≡◌, refl}
use mathlib.Core.Logic.{◌≢◌}
use mathlib.Core.Bool.{Bool, true, false, xor, ◌&&◌}
use native.Mathlib.Omega.{arith}

pub xor-false : (a : Bool) → xor a false ≡ a
unfolding xor
xor-false true = refl
xor-false false = refl

pub xor_self : (a : Bool) → xor a a ≡ false
unfolding xor
xor_self true = refl
xor_self false = refl

pub xor_interchange : (a b c d : Bool) → xor (xor a b) (xor c d) ≡ xor (xor a c) (xor b d)
unfolding xor
xor_interchange a b c d = ground arith

pub xor-xor_self : (a b : Bool) → xor (xor a b) b ≡ a
unfolding xor
xor-xor_self a b = ground arith

pub and-xor_distrib_right : (a b c : Bool) → (xor a b && c) ≡ xor (a && c) (b && c)
unfolding xor
and-xor_distrib_right a b c = ground arith

-- The sum modulo 2 of `f 0`, …, `f (n - 1)`.
pub parity : ℕ → (ℕ → Bool) → Bool
parity zero f = false
parity (suc n) f = xor (f n) (parity n f)

pub parity_ext : (n : ℕ) (f g : ℕ → Bool) → ((i : ℕ) → i < n → f i ≡ g i) → parity n f ≡ parity n g
unfolding parity
parity_ext zero f g h = refl
parity_ext (suc n) f g h =
    ground (arith, h n (omega arith), parity_ext n f g (λ i lt. h i (omega arith)))

pub parity-xor :
    (n : ℕ) (f g : ℕ → Bool) → parity n (λ i. xor (f i) (g i)) ≡ xor (parity n f) (parity n g)
unfolding parity
parity-xor zero f g = unfold xor in refl
parity-xor (suc n) f g =
    ground (arith, parity-xor n f g, xor_interchange (f n) (g n) (parity n f) (parity n g))

pub parity_zeros : (n : ℕ) (f : ℕ → Bool) → ((i : ℕ) → i < n → f i ≡ false) → parity n f ≡ false
unfolding parity xor
parity_zeros zero f h = refl
parity_zeros (suc n) f h =
    ground (arith, h n (omega arith), parity_zeros n f (λ i lt. h i (omega arith)))

-- With one place at which `f` can hold, the parity is the value there.
pub parity_single :
    (n k : ℕ) (f : ℕ → Bool) → k < n → ((i : ℕ) → i < n → i ≢ k → f i ≡ false) → parity n f ≡ f k
unfolding parity xor
parity_single zero k f h z = absurd (omega arith)
parity_single (suc n) k f h z = elim (dec n k) [
  | yes e ↦ ground (arith, e, parity_zeros n f (λ i lt. z i (omega arith) (omega arith)))
  | no ne ↦
      ground
        (arith, z n (omega arith) ne, parity_single n k f (omega arith) (λ i lt. z i (omega arith)))
]
  where
    dec : (a b : ℕ) → Dec (a ≡ b)
    dec a b = native.Mathlib.Decide.ℕ_discrete a b
