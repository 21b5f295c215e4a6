-- ===== src/TwobitContainer.antt =====
-- src/twobit_condition.h, the order of src/bitpos.h, and src/twobit_container.h with src/twobit_container.cpp: how many
-- two-bit conditions each bit has. `GenerateTwobitConditions`, which asks the steps, is not modelled.
pub mod Order
pub mod Degrees
pub mod Threshold
use nldtool.Base.{
  ℕ, zero, suc, ◌+◌, ◌*◌, ◌%◌, Bool, true, false, List, [], ◌∷◌, bit_or, leb, ltb, ◌||◌, ◌&&◌, not,
  if◌then◌else◌, get_or, set, length, replicate,
}
use nldtool.Bits.{shl}
use nldtool.Bitmask.{Bitmask, Bitpos, bitmask, set_bit}

-- `TwobitCondition`.
pub record TwobitCondition : Type 0 where
  pub first : Bitpos
  pub second : Bitpos
  pub condition : ℕ

-- `Bitpos::operator<`.
abbrev pub bitpos_key : Bitpos → ℕ
bitpos_key pos = bit_or (shl pos.word 32) pos.bit_index

abbrev pub bitpos_less : Bitpos → Bitpos → Bool
bitpos_less a b = ltb (bitpos_key a) (bitpos_key b)

-- `TwobitCondition::operator<`.
unfoldable pub twobit_less : TwobitCondition → TwobitCondition → Bool
twobit_less t u =
    if bitpos_less t.first u.first
    then true
    else if bitpos_less u.first t.first
    then false
    else if bitpos_less t.second u.second
    then true
    else if bitpos_less u.second t.second
    then false
    else ltb t.condition u.condition

-- `TwobitCondition()`.
abbrev pub no_twobit : TwobitCondition
no_twobit = record {
  first = record { word = 0; bit_index = 0 };
  second = record { word = 0; bit_index = 0 };
  condition = 0;
}

pub record TwobitContainer : Type 0 where
  pub twobit_conditions : List TwobitCondition
  pub twobit_degree : List ℕ

-- `TwobitContainer(crypto)`.
unfoldable pub twobit_container : ℕ → ℕ → TwobitContainer
twobit_container num_words word_size = record {
  twobit_conditions = [];
  twobit_degree = replicate (num_words * word_size) 0;
}

-- `ClearTwobitConditions()`.
unfoldable pub clear_twobit_conditions : TwobitContainer → TwobitContainer
clear_twobit_conditions c = record {
  twobit_conditions = [];
  twobit_degree = replicate (length (c.twobit_degree)) 0;
}

module _ (word_size : ℕ) where
  -- `GetIndexFromBitpos(pos)`.
  abbrev pub index_from_bitpos : Bitpos → ℕ
  index_from_bitpos pos = pos.word * word_size + pos.bit_index

  -- `GetTwobitDegree(pos)`, `SetTwobitDegree(pos, degree)` and `IncTwobitDegree(pos)`; a degree is a byte.
  unfoldable pub get_twobit_degree : List ℕ → Bitpos → ℕ
  get_twobit_degree degrees pos = get_or degrees (index_from_bitpos pos) 0

  unfoldable pub set_twobit_degree : List ℕ → Bitpos → ℕ → List ℕ
  set_twobit_degree degrees pos degree = set degrees (index_from_bitpos pos) degree

  unfoldable pub inc_twobit_degree : List ℕ → Bitpos → List ℕ
  inc_twobit_degree degrees pos =
      set degrees (index_from_bitpos pos) ((get_or degrees (index_from_bitpos pos) 0 + 1) % 256)

  -- The loop of `ComputeTwobitDegrees()`: `start` is `i == 0`.
  unfoldable pub degrees_from :
      List TwobitCondition → Bool → TwobitCondition → ℕ → List ℕ → ℕ × List ℕ
  degrees_from [] start tmp count degrees = (count, degrees)
  degrees_from (t ∷ ts) start tmp count degrees =
      let counted = start || twobit_less tmp t in
      let more = inc_twobit_degree (inc_twobit_degree degrees t.first) t.second in
      degrees_from ts false t (if counted then count + 1 else count)
        (if counted then more else degrees)

  unfoldable pub compute_twobit_degrees : TwobitContainer → ℕ × TwobitContainer
  compute_twobit_degrees c =
      let done = degrees_from (c.twobit_conditions) true no_twobit 0 (c.twobit_degree) in
      (done.0, record c { twobit_degree = done.1 })

-- The loop of `GetTwobitDegreeMask(th)` from the index `i` on.
unfoldable pub degree_mask_from : ℕ → List ℕ → ℕ → ℕ → Bitmask → Bitmask
degree_mask_from th degrees zero i mask = mask
degree_mask_from th degrees (suc left) i mask =
    degree_mask_from th degrees left (i + 1)
      (if leb th (get_or degrees i 0) then set_bit mask i else mask)

unfoldable pub get_twobit_degree_mask : ℕ → ℕ → TwobitContainer → ℕ → Bitmask
get_twobit_degree_mask num_words word_size c th =
    degree_mask_from th (c.twobit_degree) (num_words * word_size) 0 (bitmask word_size)
