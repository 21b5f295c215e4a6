-- ===== src/Bitslice/Classes.antt =====
-- The classes of src/functions.h as the template arguments of src/bitslice.h: numbers of inputs and outputs,
-- symmetries, bits, and the function on pairs. A missing input is read as a pair of zeros.
use nldtool.Base.{ℕ, ◌+◌, ◌-◌, ◌==◌, ◌||◌, ltb, if◌then◌else◌, List, [], ◌∷◌, get_or}
use nldtool.Pair.{Pair}
use nldtool.Utils.{log2}
use nldtool.Functions.{pair_operators, onx, if_f, maj, xor_f, add_f}
use nldtool.Bitslice.{BitFunction, no_pair}

-- A function of three inputs, under the class `F`.
abbrev pub three : (Pair → Pair → Pair → Pair) → List Pair → List Pair
three g xs = g (get_or xs 0 no_pair) (get_or xs 1 no_pair) (get_or xs 2 no_pair) ∷ []

abbrev pub class_of_three : (Pair → Pair → Pair → Pair) → BitFunction
class_of_three g = record {
  inputs = 3;
  outputs = 1;
  bitsize = λ i. 1;
  symmetry = λ i. i;
  apply = three g;
}

-- `ONX`, `IF` and `MAJ`.
abbrev pub onx_class : BitFunction
onx_class = class_of_three (onx pair_operators)

abbrev pub if_class : BitFunction
if_class = class_of_three (if_f pair_operators)

abbrev pub maj_class : BitFunction
maj_class = class_of_three (maj pair_operators)

-- `XOR<N>` and `XORB<N>`.
unfoldable pub xor_all : List Pair → List Pair
xor_all [] = no_pair ∷ []
xor_all (x ∷ rest) = xor_f pair_operators x rest ∷ []

abbrev pub xor_of : ℕ → ℕ → BitFunction
xor_of bits n = record {
  inputs = n;
  outputs = 1;
  bitsize = λ i. bits;
  symmetry = λ i. if i == n then 1 else 0;
  apply = xor_all;
}

abbrev pub xor_class : ℕ → BitFunction
xor_class = xor_of 1

abbrev pub xorb_class : ℕ → BitFunction
xorb_class = xor_of 2

-- `ADD<N>`: the last input and the last output hold the carry.
unfoldable pub add_all : List Pair → List Pair
add_all [] = no_pair ∷ no_pair ∷ []
add_all (x ∷ rest) = let result = add_f pair_operators x rest in result.0 ∷ result.1 ∷ []

abbrev pub add_class : ℕ → BitFunction
add_class n = record {
  inputs = n + 1;
  outputs = 2;
  bitsize = λ i. if i == n || i == n + 2 then log2 (n - 1) + 1 else 1;
  symmetry = λ i. if ltb i n then 0 else i;
  apply = add_all;
}
