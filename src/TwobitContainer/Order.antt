-- ===== src/TwobitContainer/Order.antt =====
-- `operator<` of src/bitpos.h and src/twobit_condition.h: conditions neither of which is less are equal.
use nldtool.Base.{
  ℕ, zero, suc, ◌+◌, ◌*◌, ◌/◌, ◌%◌, ◌^◌, ◌<◌, ◌≡◌, arith, ap, ap₂, sym, ◌∙◌, false, bit_or,
}
use nldtool.Bits.{shl, bit_or_step, or_zero, two_pow-suc}
use nldtool.Bitmask.{Bitpos}
use nldtool.TwobitContainer.{TwobitCondition, bitpos_key, twobit_less}

-- A number put together from a high and a low part that do not meet.
bit_or-parts : (k a b : ℕ) → b < 2 ^ k → bit_or (a * 2 ^ k) b ≡ a * 2 ^ k + b
bit_or-parts zero a b h =
    let none : b ≡ 0 = omega arith in
    let one : a * 1 ≡ a = omega arith in rw (none, one) (or_zero a ∙ omega arith)
bit_or-parts (suc k) a b h =
    let pow = two_pow-suc k in
    let high : a * 2 ^ suc k ≡ 2 * (a * 2 ^ k) = ap (λ x. a * x) pow ∙ omega arith in
    let low : b / 2 < 2 ^ k = omega (arith, pow) in
    let half : a * 2 ^ suc k / 2 ≡ a * 2 ^ k = ap (λ x. x / 2) high ∙ omega arith in
    let even : a * 2 ^ suc k % 2 ≡ 0 = ap (λ x. x % 2) high ∙ omega arith in
    let rest : bit_or (a * 2 ^ suc k / 2) (b / 2) ≡ a * 2 ^ k + b / 2 =
      ap (λ x. bit_or x (b / 2)) half ∙ bit_or-parts k a (b / 2) low in
    bit_or_step (a * 2 ^ suc k) b ∙ ground (arith, even, rest, high)

-- The words and bits that the source admits.
abbrev pub IsBitpos : Bitpos → Type 0
IsBitpos pos = (pos.word < 2 ^ 30) × (pos.bit_index < 2 ^ 30)

key-eq : (pos : Bitpos) → IsBitpos pos → bitpos_key pos ≡ pos.word * 2 ^ 32 + pos.bit_index
unfolding shl
key-eq pos (hw, hb) =
    let fits : pos.word * 2 ^ 32 % 2 ^ 64 ≡ pos.word * 2 ^ 32 = omega (arith, hw) in
    ap (λ x. bit_or x pos.bit_index) fits
    ∙ bit_or-parts 32 pos.word pos.bit_index (omega (arith, hb))

key-injective : (a b : Bitpos) → IsBitpos a → IsBitpos b → bitpos_key a ≡ bitpos_key b → a ≡ b
key-injective a b ha hb e =
    let same = sym (key-eq a ha) ∙ e ∙ key-eq b hb in
    let words : a.word ≡ b.word = omega (arith, same, ha.0, ha.1, hb.0, hb.1) in
    let bits : a.bit_index ≡ b.bit_index = omega (arith, same, ha.0, ha.1, hb.0, hb.1) in
    ap₂ (λ x y. record { word = x; bit_index = y }) words bits

abbrev pub IsTwobitCondition : TwobitCondition → Type 0
IsTwobitCondition t = IsBitpos t.first × IsBitpos t.second

-- Conditions neither of which is less are equal.
pub neither_less-eq :
    (t u : TwobitCondition)
    → IsTwobitCondition t
    → IsTwobitCondition u
    → twobit_less t u ≡ false
    → twobit_less u t ≡ false
    → t ≡ u
unfolding twobit_less
neither_less-eq t u ht hu h k =
    let first : bitpos_key t.first ≡ bitpos_key u.first = ground (arith, h, k) in
    let second : bitpos_key t.second ≡ bitpos_key u.second = ground (arith, h, k, first) in
    let kind : t.condition ≡ u.condition = ground (arith, h, k, first, second) in
    ap (λ x. record t { first = x }) (key-injective t.first u.first ht.0 hu.0 first)
    ∙ ap (λ y. record t { first = u.first; second = y })
        (key-injective t.second u.second ht.1 hu.1 second)
    ∙ ap (λ z. record { first = u.first; second = u.second; condition = z }) kind

-- No condition is less than itself.
pub not_less_self : (t : TwobitCondition) → twobit_less t t ≡ false
unfolding twobit_less
not_less_self t = ground arith
