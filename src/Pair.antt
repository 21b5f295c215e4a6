-- ===== src/Pair.antt =====
-- src/pair.h: two bytes with the operators of C on both. A byte is a number below 256, and what an operator of C
-- leaves is cut to a byte.
use nldtool.Base.{
  ℕ, ◌+◌, ◌-◌, ◌*◌, ◌/◌, ◌%◌, ◌^◌, Bool, bit_and, bit_or, bit_xor, ◌==◌, ◌&&◌, ◌||◌, not,
  if◌then◌else◌,
}

pub record Pair : Type 0 where
  pub first : ℕ
  pub second : ℕ

abbrev pub byte : ℕ → ℕ
byte n = n % 256

abbrev both : (ℕ → ℕ) → Pair → Pair
both f p = record { first = f p.first; second = f p.second }

abbrev each : (ℕ → ℕ → ℕ) → Pair → Pair → Pair
each f p q = record { first = f p.first q.first; second = f p.second q.second }

abbrev pub byte_sub : ℕ → ℕ → ℕ
byte_sub a b = (a + 256 - b) % 256

-- `!x` of a byte.
abbrev pub byte_not : ℕ → ℕ
byte_not x = if x == 0 then 1 else 0

-- The operators of two pairs. A division by zero has no value in C.
unfoldable pub add : Pair → Pair → Pair
add = each (λ a b. byte (a + b))

unfoldable pub sub : Pair → Pair → Pair
sub = each byte_sub

unfoldable pub mul : Pair → Pair → Pair
mul = each (λ a b. byte (a * b))

unfoldable pub div : Pair → Pair → Pair
div = each (λ a b. a / b)

unfoldable pub rem : Pair → Pair → Pair
rem = each (λ a b. a % b)

unfoldable pub conj : Pair → Pair → Pair
conj = each bit_and

unfoldable pub disj : Pair → Pair → Pair
disj = each bit_or

unfoldable pub exor : Pair → Pair → Pair
exor = each bit_xor

-- The operators of a pair and a value.
unfoldable pub add_value : Pair → ℕ → Pair
add_value p v = both (λ a. byte (a + v)) p

unfoldable pub sub_value : Pair → ℕ → Pair
sub_value p v = both (λ a. byte_sub a v) p

unfoldable pub mul_value : Pair → ℕ → Pair
mul_value p v = both (λ a. byte (a * v)) p

unfoldable pub div_value : Pair → ℕ → Pair
div_value p v = both (λ a. a / v) p

unfoldable pub rem_value : Pair → ℕ → Pair
rem_value p v = both (λ a. a % v) p

unfoldable pub conj_value : Pair → ℕ → Pair
conj_value p v = both (λ a. bit_and a v) p

unfoldable pub disj_value : Pair → ℕ → Pair
disj_value p v = both (λ a. bit_or a v) p

unfoldable pub exor_value : Pair → ℕ → Pair
exor_value p v = both (λ a. bit_xor a v) p

-- `p >> i`, `p << i`, `++p`, `--p`, `~p` and `!p`.
unfoldable pub shift_right : Pair → ℕ → Pair
shift_right p i = both (λ a. a / 2 ^ i) p

unfoldable pub shift_left : Pair → ℕ → Pair
shift_left p i = both (λ a. byte (a * 2 ^ i)) p

unfoldable pub increment : Pair → Pair
increment = both (λ a. byte (a + 1))

unfoldable pub decrement : Pair → Pair
decrement = both (λ a. byte_sub a 1)

unfoldable pub complement : Pair → Pair
complement = both (λ a. 255 - a)

unfoldable pub negate : Pair → Pair
negate = both byte_not

unfoldable pub equal : Pair → Pair → Bool
equal p q = p.first == q.first && p.second == q.second

unfoldable pub differ_pair : Pair → Pair → Bool
differ_pair p q = not (p.first == q.first) || not (p.second == q.second)
