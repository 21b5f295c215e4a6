-- ===== src/BitMatrix/Blocks.antt =====
-- `data_` of src/bit_matrix.cpp seen as rows of columns: the row at physical position `p` takes the
-- words from `p * n` on, and its column `c` is a bit of one of them.
use nldtool.Base.{
  ℕ, zero, suc, ◌+◌, ◌-◌, ◌*◌, ◌/◌, ◌%◌, ◌^◌, ◌≤◌, ◌<◌, ◌≡◌, ◌≢◌, ◌⊎◌, inl, inr, refl, arith, Bool,
  List, [], ◌∷◌, bit_xor, ltb, leb, ◌==◌, ◌&&◌, if◌then◌else◌, set, length, length-set, get_or-set,
  xor, xor-false, ◌∙◌,
}
use native.Mathlib.Decide.{dec_lt, ℕ_discrete}
use nldtool.Bits.{bit, bit-bit_xor, bit-two_pow, shl, IsWord, bit_xor-lt, shl-IsWord, two_pow-lt}
use nldtool.BitMatrix.{word_at, flip_bit, flip_bits, xor_words}

-- The bit at column `c` of a row that starts at word `start`.
unfoldable pub col_bit : List ℕ → ℕ → ℕ → Bool
col_bit ws start c = bit (word_at ws (start + c / 64)) (c % 64)

-- Column `c` of the row at physical position `p`, with `n` words to a row.
abbrev pub block_bit : ℕ → List ℕ → ℕ → ℕ → Bool
block_bit n ws p c = col_bit ws (p * n) c

abbrev pub AllWords : List ℕ → Type 0
AllWords ws = (i : ℕ) → IsWord (word_at ws i)

set-AllWords : (ws : List ℕ) (i x : ℕ) → AllWords ws → IsWord x → AllWords (set ws i x)
set-AllWords [] i x h hx j = h j
set-AllWords (w ∷ ws) zero x h hx zero = hx
set-AllWords (w ∷ ws) zero x h hx (suc j) = h (suc j)
set-AllWords (w ∷ ws) (suc i) x h hx zero = h 0
set-AllWords (w ∷ ws) (suc i) x h hx (suc j) = set-AllWords ws i x (λ k. h (suc k)) hx j

pub shl-one : (k : ℕ) → k < 64 → shl 1 k ≡ 2 ^ k
unfolding shl
shl-one k h = let lt : 2 ^ k < 2 ^ 64 = two_pow-lt k 64 h in omega arith

pub block_end-le : (p q n : ℕ) → p < q → p * n + n ≤ q * n
block_end-le p q n lt = grind arith

pub blocks_apart : (p q n : ℕ) → p ≢ q → (p * n + n ≤ q * n) ⊎ (q * n + n ≤ p * n)
blocks_apart p q n ne = elim (dec_lt p q) [
  | yes lt ↦ inl (block_end-le p q n lt)
  | no ge ↦ inr (block_end-le q p n (omega arith))
]

pub word_at-flip_bit :
    (ws : List ℕ) (start col i : ℕ)
    → start + col / 64 < length ws
    → word_at (flip_bit ws start col) i
      ≡ (if start + col / 64 == i then bit_xor (word_at ws i) (2 ^ (col % 64)) else word_at ws i)
unfolding flip_bit
word_at-flip_bit ws start col i h = ground (
  arith,
  get_or-set ws (start + col / 64) i (bit_xor (word_at ws (start + col / 64)) (shl 1 (col % 64))) 0,
  shl-one (col % 64) (omega arith),
)

pub word_at-xor_words :
    (a b n : ℕ) (ws : List ℕ) (left k i : ℕ)
    → k + left ≡ n
    → a + n ≤ length ws
    → (a + n ≤ b) ⊎ (b + n ≤ a)
    → word_at (xor_words a b ws left k) i ≡ (
        if leb (a + k) i && ltb i (a + n)
        then bit_xor (word_at ws i) (word_at ws (b + (i - a)))
        else word_at ws i)
unfolding xor_words
word_at-xor_words a b n ws zero k i e h d = ground arith
word_at-xor_words a b n ws (suc left) k i e h d =
    let x = bit_xor (word_at ws (a + k)) (word_at ws (b + k)) in
    ground (
      arith,
      word_at-xor_words a b n (set ws (a + k) x) left (k + 1) i (omega arith)
          (omega (arith, length-set ws (a + k) x)) d,
      get_or-set ws (a + k) i x 0,
      get_or-set ws (a + k) (b + (i - a)) x 0,
    )

pub length-flip_bit : (ws : List ℕ) (start col : ℕ) → length (flip_bit ws start col) ≡ length ws
unfolding flip_bit
length-flip_bit ws start col = length-set ws _ _

pub length-flip_bits :
    (ws : List ℕ) (start : ℕ) (eq : List ℕ) → length (flip_bits ws start eq) ≡ length ws
unfolding flip_bits
length-flip_bits ws start [] = refl
length-flip_bits ws start (col ∷ eq) =
    length-flip_bits (flip_bit ws start col) start eq ∙ length-flip_bit ws start col

pub length-xor_words :
    (a b : ℕ) (ws : List ℕ) (left k : ℕ) → length (xor_words a b ws left k) ≡ length ws
unfolding xor_words
length-xor_words a b ws zero k = refl
length-xor_words a b ws (suc left) k =
    length-xor_words a b (set ws (a + k) _) left (k + 1) ∙ length-set ws (a + k) _

-- Flipping column `col` of the row at `p` changes that bit and no other.
pub block_bit-flip_bit :
    (n : ℕ) (ws : List ℕ) (p q col c : ℕ)
    → p * n + n ≤ length ws
    → col < 64 * n
    → c < 64 * n
    → block_bit n (flip_bit ws (p * n) col) q c
      ≡ (if p == q then xor (block_bit n ws q c) (col == c) else block_bit n ws q c)
unfolding col_bit
block_bit-flip_bit n ws p q col c h lc lc' = elim (ℕ_discrete p q) [
  | yes e ↦ rw e (
      ground (
        arith,
        word_at-flip_bit ws (q * n) col (q * n + c / 64)
            (let h' : q * n + n ≤ length ws = rw (← e) h in omega arith),
        bit-bit_xor (word_at ws (q * n + c / 64)) (2 ^ (col % 64)) (c % 64),
        bit-two_pow (col % 64) (c % 64),
        xor-false (bit (word_at ws (q * n + c / 64)) (c % 64)),
      ))
  | no ne ↦ ground (arith, word_at-flip_bit ws (p * n) col (q * n + c / 64), blocks_apart p q n ne)
]

-- Adding the row at `b` to the row at `a` adds their columns.
pub block_bit-xor_words :
    (n : ℕ) (ws : List ℕ) (a b q c : ℕ)
    → a * n + n ≤ length ws
    → a ≢ b
    → c < 64 * n
    → block_bit n (xor_words (a * n) (b * n) ws n 0) q c
      ≡ (if a == q then xor (block_bit n ws a c) (block_bit n ws b c) else block_bit n ws q c)
unfolding col_bit
block_bit-xor_words n ws a b q c h ne lc = elim (ℕ_discrete a q) [
  | yes e ↦ rw (← e) (
      ground (
        arith,
        word_at-xor_words (a * n) (b * n) n ws n 0 (a * n + c / 64),
        blocks_apart a b n ne,
        bit-bit_xor (word_at ws (a * n + c / 64)) (word_at ws (b * n + c / 64)) (c % 64),
      ))
  | no ne' ↦ ground (
    arith,
    word_at-xor_words (a * n) (b * n) n ws n 0 (q * n + c / 64),
    blocks_apart a b n ne,
    blocks_apart a q n ne',
  )
]

pub xor_words-AllWords :
    (a b : ℕ) (ws : List ℕ) (left k : ℕ) → AllWords ws → AllWords (xor_words a b ws left k)
unfolding xor_words
xor_words-AllWords a b ws zero k h = h
xor_words-AllWords a b ws (suc left) k h =
    xor_words-AllWords a b (set ws (a + k) (bit_xor (word_at ws (a + k)) (word_at ws (b + k)))) left
      (k + 1) (set-AllWords ws (a + k) _ h (bit_xor-lt 64 _ _ (h (a + k)) (h (b + k))))

pub flip_bit-AllWords :
    (ws : List ℕ) (start col : ℕ) → AllWords ws → AllWords (flip_bit ws start col)
unfolding flip_bit
flip_bit-AllWords ws start col h =
    set-AllWords ws _ _ h (bit_xor-lt 64 _ _ (h _) (shl-IsWord 1 (col % 64)))

pub flip_bits-AllWords :
    (ws : List ℕ) (start : ℕ) (eq : List ℕ) → AllWords ws → AllWords (flip_bits ws start eq)
unfolding flip_bits
flip_bits-AllWords ws start [] h = h
flip_bits-AllWords ws start (col ∷ eq) h =
    flip_bits-AllWords (flip_bit ws start col) start eq (flip_bit-AllWords ws start col h)
