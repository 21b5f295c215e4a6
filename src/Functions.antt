-- ===== src/Functions.antt =====
-- src/functions.h: the functions of the steps, written as in the source for any type with the operators that they
-- use. The arrays of inputs and outputs are arguments and results.
pub mod Lift
use nldtool.Base.{
  ℕ, zero, suc, ◌+◌, ◌*◌, ◌/◌, ◌%◌, ◌^◌, List, [], ◌∷◌, ◌++◌, bit_and, bit_or, bit_xor, get_or, map,
}
use nldtool.Pair.{Pair, byte, byte_not, add, conj, disj, exor, conj_value, shift_right, negate}

-- The operators that the functions use.
pub record Operators (A : Type 0) : Type 0 where
  pub plus : A → A → A
  pub conj_op : A → A → A
  pub disj_op : A → A → A
  pub exor_op : A → A → A
  pub not_op : A → A
  pub conj_with : A → ℕ → A
  pub shift_by : A → ℕ → A

-- Those of `uint8_t` and of `Pair`.
abbrev pub byte_operators : Operators ℕ
byte_operators = record {
  plus = λ a b. byte (a + b);
  conj_op = bit_and;
  disj_op = bit_or;
  exor_op = bit_xor;
  not_op = byte_not;
  conj_with = bit_and;
  shift_by = λ a i. a / 2 ^ i;
}

abbrev pub pair_operators : Operators Pair
pair_operators = record {
  plus = add;
  conj_op = conj;
  disj_op = disj;
  exor_op = exor;
  not_op = negate;
  conj_with = conj_value;
  shift_by = shift_right;
}

-- `std::accumulate`.
abbrev pub accumulate : {A : Type 0} → (A → A → A) → List A → A → A
accumulate f [] acc = acc
accumulate f (x ∷ xs) acc = accumulate f xs (f acc x)

module _ {A : Type 0} (o : Operators A) where
  -- `ONX::f`, `IF::f` and `MAJ::f`.
  unfoldable pub onx : A → A → A → A
  onx x0 x1 x2 = o.exor_op x1 (o.disj_op x0 (o.not_op x2))

  unfoldable pub if_f : A → A → A → A
  if_f x0 x1 x2 = o.disj_op (o.conj_op x0 x1) (o.conj_op (o.not_op x0) x2)

  unfoldable pub maj : A → A → A → A
  maj x0 x1 x2 = o.exor_op (o.exor_op (o.conj_op x0 x1) (o.conj_op x1 x2)) (o.conj_op x2 x0)

  -- `XOR<N>::f` and `XORB<N>::f`, of `x[0]` and the other inputs.
  unfoldable pub xor_f : A → List A → A
  xor_f x rest = accumulate o.exor_op rest x

  -- `ADD<N>::f`: the sum's lowest bit and the carry.
  unfoldable pub add_f : A → List A → A × A
  add_f x rest = let sum = accumulate o.plus rest x in (o.conj_with sum 1, o.shift_by sum 1)

  -- `ADDB<N>::f` of the summands and the carry input: the sum's two lowest bits, the carry of the lowest bits, and
  -- the carry.
  unfoldable pub addb_f : A → List A → A → A × A × A
  addb_f x rest carry =
      let middle =
        o.shift_by (accumulate (λ acc d. o.plus acc (o.conj_with d 1)) (x ∷ rest) carry) 1 in
      let sum = accumulate o.plus (rest ++ carry ∷ []) x in
      (o.conj_with sum 3, middle, o.shift_by sum 2)

-- `SBOX<I,O,LUT>::f`: the index of the input bits, and the output's bits from the highest on.
unfoldable pub sbox_input : List ℕ → ℕ → ℕ
sbox_input [] input = input
sbox_input (x ∷ xs) input = sbox_input xs (bit_or (input * 2) (bit_and x 1))

unfoldable pub sbox_output : ℕ → ℕ → List ℕ
sbox_output zero output = []
sbox_output (suc left) output = sbox_output left (output / 2) ++ bit_and output 1 ∷ []

unfoldable pub sbox : List ℕ → ℕ → List ℕ → List ℕ
sbox lut outputs xs = sbox_output outputs (get_or lut (sbox_input xs 0) 0)

-- The overload for pairs, with two inputs and two outputs.
unfoldable pub sbox_pair_input : List Pair → ℕ → ℕ → ℕ × ℕ
sbox_pair_input [] input1 input2 = (input1, input2)
sbox_pair_input (x ∷ xs) input1 input2 =
    sbox_pair_input xs (bit_or (input1 * 2) (bit_and x.first 1))
      (bit_or (input2 * 2) (bit_and x.second 1))

unfoldable pub sbox_pair_output : ℕ → ℕ → ℕ → List Pair
sbox_pair_output zero output1 output2 = []
sbox_pair_output (suc left) output1 output2 =
    sbox_pair_output left (output1 / 2) (output2 / 2)
    ++ record { first = bit_and output1 1; second = bit_and output2 1 } ∷ []

unfoldable pub sbox_pair : List ℕ → ℕ → List Pair → List Pair
sbox_pair lut outputs xs =
    let inputs = sbox_pair_input xs 0 0 in
    sbox_pair_output outputs (get_or lut inputs.0 0) (get_or lut inputs.1 0)
