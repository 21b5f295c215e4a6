-- ===== src/Condition/Project.antt =====
-- `GetBit0()` to `GetBits12()` of src/condition.cpp, each written as a network that is checked bit by bit.
use nldtool.Base.{ℕ, ◌+◌, ◌*◌, ◌/◌, ◌%◌, ◌^◌, ◌<◌, ◌≡◌, refl, true, ap, sym, ◌∙◌}
use nldtool.Bits.{bit}
use nldtool.Condition.Two
use nldtool.Condition.Three
use nldtool.Condition.Network.{
  Net, none, input, or, shift, masked, mask_of, eval, sources, possible, owners, projects, member,
  subset, projects-possible,
}

-- In the layout of `Merge...` and `Get...` bit `k` of a value is the first member of pair `k`, and
-- bit `n + k` its second, for `n` pairs.
abbrev pub pair_at : ℕ → ℕ → ℕ → ℕ
pair_at n k p = p / 2 ^ k % 2 + 2 * (p / 2 ^ (n + k) % 2)

-- The pairs `k` and `k + 1`, in the layout of two.
abbrev pub pairs_at : ℕ → ℕ → ℕ → ℕ
pairs_at n k p = p / 2 ^ k % 4 + 4 * (p / 2 ^ (n + k) % 4)

-- `f` selects parts of a value: a bit of `f c` is set when one of the values with that part is in `c`.
abbrev IsProjection : ℕ → ℕ → (ℕ → ℕ) → (ℕ → ℕ) → Type 0
IsProjection n w place f = (c i : ℕ) → i < w → bit (f c) i ≡ possible n place c i

projection :
    (n w : ℕ) (place f : ℕ → ℕ) (net : Net)
    → ((c : ℕ) → eval net c ≡ f c)
    → projects n w place net ≡ true
    → IsProjection n w place f
projection n w place f net same check c i lt =
    ap (λ (x : ℕ). bit x i) (sym (same c)) ∙ projects-possible n w place net check c i lt

abbrev smear : Net → ℕ → Net
smear h k = or h (shift h k)

-- `(h & a) | ((h & b) >> k)`.
abbrev fold_at : Net → ℕ → ℕ → ℕ → Net
fold_at h a b k = or (masked h a) (shift (masked h b) k)

-- `(h & a) | ((h >> k) & b)`, cut to the word `m` of the result.
abbrev join_at : Net → ℕ → ℕ → ℕ → ℕ → Net
join_at h a k b m = masked (or (masked h a) (masked (shift h k) b)) m

abbrev two_bit0 : Net
two_bit0 = join_at (smear (smear input 2) 8) 0x3 2 0xc 0xf

abbrev two_bit1 : Net
two_bit1 =
    let h = smear (smear (masked (or (shift input 4) input) 0x0f0f) 4) 1 in
    let low = or (or none (mask_of 1 h)) (mask_of 2 (shift h 1)) in
    masked (or (or low (mask_of 4 (shift h 2))) (mask_of 8 (shift h 3))) 0xf

-- For every word of `Condition<2>`, each bit of `GetBit0()` and of `GetBit1()` is set just when one of the
-- sixteen values of two pairs with that pair in that place is in the word.
pub two_get_bits-possible :
    (c i : ℕ)
    → i < 4
    → (bit (Two.get_bit0 c) i ≡ possible 16 (pair_at 2 0) c i)
      × (bit (Two.get_bit1 c) i ≡ possible 16 (pair_at 2 1) c i)
unfolding projects subset member sources owners bit eval Two.get_bit0 Two.get_bit1
two_get_bits-possible c i lt = (
  projection 16 4 (pair_at 2 0) Two.get_bit0 two_bit0 (λ c'. refl) refl c i lt,
  projection 16 4 (pair_at 2 1) Two.get_bit1 two_bit1 (λ c'. refl) refl c i lt,
)

abbrev three_bit0 : Net
three_bit0 = join_at (smear (smear (smear (smear input 2) 4) 16) 32) 0x3 6 0xc 0xf

abbrev three_bit1 : Net
three_bit1 =
    let h = smear (smear (smear (smear input 1) 4) 8) 32 in
    join_at (fold_at h 0x10001 0x40004 1) 0x3 14 0xc 0xf

abbrev three_bit2 : Net
three_bit2 =
    let h = smear (smear (smear (smear input 1) 2) 8) 16 in
    join_at (fold_at h 0x100000001 0x1000000010 3) 0x3 30 0xc 0xf

-- For every word of `Condition<3>`, each bit of `GetBit0()`, `GetBit1()` and `GetBit2()` is set just when one
-- of the sixty-four values of three pairs with that pair in that place is in the word.
pub three_get_bits-possible :
    (c i : ℕ)
    → i < 4
    → (bit (Three.get_bit0 c) i ≡ possible 64 (pair_at 3 0) c i)
      × (bit (Three.get_bit1 c) i ≡ possible 64 (pair_at 3 1) c i)
      × (bit (Three.get_bit2 c) i ≡ possible 64 (pair_at 3 2) c i)
unfolding projects subset member sources owners bit eval Three.get_bit0 Three.get_bit1
    Three.get_bit2
three_get_bits-possible c i lt = (
  projection 64 4 (pair_at 3 0) Three.get_bit0 three_bit0 (λ c'. refl) refl c i lt,
  projection 64 4 (pair_at 3 1) Three.get_bit1 three_bit1 (λ c'. refl) refl c i lt,
  projection 64 4 (pair_at 3 2) Three.get_bit2 three_bit2 (λ c'. refl) refl c i lt,
)

abbrev three_bits01 : Net
three_bits01 =
    masked (fold_at (fold_at (smear (smear input 4) 32) 0xf000f 0xf000f00 4) 0xff 0xff0000 8) 0xffff

abbrev three_bits12 : Net
three_bits12 =
    let h3 = fold_at (smear (smear input 1) 8) 0x1000100010001 0x54005400540054 1 in
    let h5 =
      fold_at (fold_at h3 0x3000300030003 0x28002800280028 1) 0x7000700070007 0x10001000100010 1 in
    join_at (fold_at h5 0xf0000000f 0xf0000000f0000 12) 0xff 24 0xff00 0xffff

-- For every word of `Condition<3>`, each bit of `GetBits01()` and of `GetBits12()` is set just when one of the
-- values of three pairs with those two pairs in those places is in the word.
pub three_get_pairs-possible :
    (c i : ℕ)
    → i < 16
    → (bit (Three.get_bits01 c) i ≡ possible 64 (pairs_at 3 0) c i)
      × (bit (Three.get_bits12 c) i ≡ possible 64 (pairs_at 3 1) c i)
unfolding projects subset member sources owners bit eval Three.get_bits01 Three.get_bits12
three_get_pairs-possible c i lt = (
  projection 64 16 (pairs_at 3 0) Three.get_bits01 three_bits01 (λ c'. refl) refl c i lt,
  projection 64 16 (pairs_at 3 1) Three.get_bits12 three_bits12 (λ c'. refl) refl c i lt,
)
