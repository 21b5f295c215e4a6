-- ===== src/Tests/Degrees.antt =====
-- src/twobit_container.cpp on three two-bit conditions, two of them equal, in words of four bits.
use nldtool.Base.{ℕ, ◌+◌, ◌%◌, ◌≡◌, refl, arith, [], ◌∷◌, leb, get_or, length, All}
use nldtool.Bitmask.{get_bit}
use nldtool.TwobitContainer.{
  TwobitCondition, TwobitContainer, twobit_less, get_twobit_degree, compute_twobit_degrees,
  get_twobit_degree_mask,
}
use nldtool.TwobitContainer.Order.{IsTwobitCondition}
use nldtool.TwobitContainer.Degrees.{
  distinct, total_uses, IsSorted, compute_twobit_degrees-distinct,
}
use nldtool.TwobitContainer.Threshold.{degree_mask-leb}

abbrev equal_bits : TwobitCondition
equal_bits = record {
  first = record { word = 0; bit_index = 1 };
  second = record { word = 1; bit_index = 2 };
  condition = 1;
}

abbrev opposite_bits : TwobitCondition
opposite_bits = record {
  first = record { word = 1; bit_index = 2 };
  second = record { word = 1; bit_index = 3 };
  condition = 2;
}

abbrev three_conditions : TwobitContainer
three_conditions = record {
  twobit_conditions = equal_bits ∷ equal_bits ∷ opposite_bits ∷ [];
  twobit_degree = 0 ∷ 0 ∷ 0 ∷ 0 ∷ 0 ∷ 0 ∷ 0 ∷ 0 ∷ [];
}

compute_twobit_degrees_run :
    compute_twobit_degrees 4 three_conditions
    ≡ (2, record three_conditions { twobit_degree = 0 ∷ 1 ∷ 0 ∷ 0 ∷ 0 ∷ 0 ∷ 2 ∷ 1 ∷ [] })
unfolding compute_twobit_degrees nldtool.TwobitContainer.degrees_from twobit_less
    nldtool.TwobitContainer.inc_twobit_degree nldtool.Bits.shl
compute_twobit_degrees_run = refl

three_conditions-IsSorted : IsSorted (three_conditions.twobit_conditions)
unfolding twobit_less nldtool.Bits.shl
three_conditions-IsSorted = ((refl, (refl, tt)), ((refl, tt), (tt, tt)))

three_conditions_in_range : All IsTwobitCondition (three_conditions.twobit_conditions)
three_conditions_in_range = (
  ((omega arith, omega arith), (omega arith, omega arith)),
  (
    ((omega arith, omega arith), (omega arith, omega arith)),
    (((omega arith, omega arith), (omega arith, omega arith)), tt),
  ),
)

compute_twobit_degrees-distinct_example :
    let once = distinct (three_conditions.twobit_conditions) in
    ((compute_twobit_degrees 4 three_conditions).0 ≡ length once)
    × ((i : ℕ)
        → get_or ((compute_twobit_degrees 4 three_conditions).1.twobit_degree) i 0 % 256
          ≡ (get_or (three_conditions.twobit_degree) i 0 + total_uses 4 i once) % 256)
compute_twobit_degrees-distinct_example =
    compute_twobit_degrees-distinct 4 three_conditions three_conditions_in_range
      ((omega arith, omega arith), ((omega arith, omega arith), ((omega arith, omega arith), tt)))
      three_conditions-IsSorted

degree_mask-leb_example :
    get_bit (get_twobit_degree_mask 2 4 three_conditions 1) (record { word = 1; bit_index = 2 })
    ≡ leb 1
        (get_twobit_degree 4 (three_conditions.twobit_degree) (record { word = 1; bit_index = 2 }))
degree_mask-leb_example =
    degree_mask-leb 2 4 three_conditions 1 (record { word = 1; bit_index = 2 }) (omega arith)
      (omega arith) (omega arith)
