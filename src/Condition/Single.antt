-- ===== src/Condition/Single.antt =====
-- `Condition<1>` of src/condition.h and src/condition.cpp: its tables against the bits of the word.
use nldtool.Base.{
  tabulate-agree, ℕ, zero, suc, ◌+◌, ◌*◌, ◌/◌, ◌%◌, ◌<◌, ◌≡◌, refl, List, [], ◌∷◌, if◌then◌else◌,
  length, map, get_or,
}
use nldtool.Bits.{bit}
use nldtool.Condition.{
  num_pairs_table, pairs_table, pairs4_table, get_num_pairs, get_pair, get_char, from_char,
  char2cond, char2cond_loop, cond2char,
}

-- The pairs that condition `c` allows, from `i` on in increasing order.
unfoldable pub allowed_from : ℕ → ℕ → ℕ → List ℕ
allowed_from zero i c = []
allowed_from (suc left) i c =
    let rest = allowed_from left (i + 1) c in if bit c i then i ∷ rest else rest

abbrev pub allowed : ℕ → List ℕ
allowed c = allowed_from 4 0 c

-- `GetPair(0)` up to `GetPair(n - 1)`.
unfoldable pub read_pairs : ℕ → ℕ → ℕ → List ℕ
read_pairs zero i c = []
read_pairs (suc left) i c = get_pair c i ∷ read_pairs left (i + 1) c

-- For each of the sixteen conditions, `GetNumPairs()` is the number of bits set, `GetPair(0)` up to the last
-- are their places in increasing order, `PAIRS4` has the same pairs as two hexadecimal digits, and
-- the character of the condition is read back as the condition.
pub tables-allowed :
    (c : ℕ)
    → c < 16
    → (get_num_pairs c ≡ length (allowed c))
      × (read_pairs (get_num_pairs c) 0 c ≡ allowed c)
      × (get_or pairs4_table c [] ≡ map (λ p. p % 2 + 16 * (p / 2)) (allowed c))
      × (from_char (get_char c) ≡ c)
unfolding get_num_pairs get_pair get_char from_char char2cond char2cond_loop cond2char
    num_pairs_table pairs_table pairs4_table allowed_from read_pairs bit
tables-allowed c lt = (
  tabulate-agree 16 get_num_pairs (λ v. length (allowed v)) refl c lt,
  tabulate-agree 16 (λ v. read_pairs (get_num_pairs v) 0 v) allowed refl c lt,
  tabulate-agree 16 (λ v. get_or pairs4_table v [])
      (λ v. map (λ p. p % 2 + 16 * (p / 2)) (allowed v)) refl c lt,
  tabulate-agree 16 (λ v. from_char (get_char v)) (λ v. v) refl c lt,
)
