-- ===== src/Bitslice.antt =====
-- src/bitslice_data.h, src/bitslice_pair.h, src/index.h, src/propagate.h and the loop of src/bitslice.h: the conditions on
-- the inputs and outputs of a function on a few bits, and what they become when every choice of inputs is tried.
-- The template argument `F` of the source is a record. Debug output is not modelled.
pub mod Conditions
pub mod Counter
pub mod Choices
pub mod Collect
pub mod Filled
pub mod Solutions
pub mod Loop
pub mod Optimal
pub mod Closure
pub mod Classes
pub mod Bitwise
pub mod Sorted
pub mod Swap
pub mod Moved
pub mod Exchange
pub mod Order
pub mod Cached
pub mod Symmetric
pub mod Twobit
use nldtool.Base.{
  ℕ, zero, suc, ◌+◌, ◌-◌, ◌*◌, ◌/◌, ◌^◌, Bool, true, false, List, [], ◌∷◌, ◌++◌, bit_and, bit_or,
  ◌==◌, ◌&&◌, not, ltb, if◌then◌else◌, get_or, set, length, replicate, map, Option, none, some,
}
use nldtool.Bits.{bit, shl}
use nldtool.Pair.{Pair}
use nldtool.WordContainer.{get, set_range}

-- The class `F`: the numbers of inputs and outputs, the bits of each, which of them may be exchanged, and the
-- function.
pub record BitFunction : Type 0 where
  pub inputs : ℕ
  pub outputs : ℕ
  pub bitsize : ℕ → ℕ
  pub symmetry : ℕ → ℕ
  pub apply : List Pair → List Pair

abbrev pub no_pair : Pair
no_pair = record { first = 0; second = 0 }

module _ (f : BitFunction) where
  -- `ConditionIndex(i)`, of which CINDEX is the table.
  unfoldable pub condition_index : ℕ → ℕ
  condition_index zero = 0
  condition_index (suc i) = condition_index i + 2 ^ (2 * f.bitsize i)

  -- NUMWORDS.
  abbrev pub params : ℕ
  params = f.inputs + f.outputs

  unfoldable pub num_words : ℕ
  num_words = (condition_index params - 1) / 64 + 1

  -- `BitsliceData()`, which is `GetEmptyKey()` too, and `GetCondition(i)` and `SetCondition(i, cond)` of the object.
  unfoldable pub no_conditions : List ℕ
  no_conditions = replicate num_words 0

  unfoldable pub get_condition : List ℕ → ℕ → ℕ
  get_condition conditions i = get conditions (condition_index i) (condition_index (i + 1) - 1)

  unfoldable pub set_condition : List ℕ → ℕ → ℕ → List ℕ
  set_condition conditions i cond =
      set_range conditions (condition_index i) (condition_index (i + 1) - 1) cond

  -- `GetDeletedKey()`, and `operator uint64_t()` from the parameter `i` on, where the value is used as an index.
  unfoldable pub get_deleted_key : List ℕ
  get_deleted_key = set_range no_conditions 0 1 1

  unfoldable pub packed_from : List ℕ → ℕ → ℕ → ℕ
  packed_from conditions zero i = 0
  packed_from conditions (suc left) i =
      bit_or (shl (get_condition conditions i) (i * 4)) (packed_from conditions left (i + 1))

  unfoldable pub packed : List ℕ → ℕ
  packed conditions = packed_from conditions params 0

  -- `BitslicePair::GetPair(i)`, and the place of its bit.
  abbrev pub pair_code : ℕ → Pair → ℕ
  pair_code i p = bit_or (shl p.second (f.bitsize i)) p.first

  abbrev pub pair_mask : ℕ → Pair → ℕ
  pair_mask i p = shl 1 (pair_code i p)

  -- The inner loops of `SetupPairs` at input `j`: the pairs `(a, b)` that its condition has. The array's entry behind
  -- the last one counted is not read.
  unfoldable pub pairs_at : ℕ → ℕ → ℕ → ℕ → ℕ → List Pair
  pairs_at cond num a zero b = []
  pairs_at cond num a (suc left) b =
      let rest = pairs_at cond num a left (b + 1) in
      if bit cond (b * num + a) then record { first = a; second = b } ∷ rest else rest

  unfoldable pub pairs_from : ℕ → ℕ → ℕ → ℕ → List Pair
  pairs_from cond num zero a = []
  pairs_from cond num (suc left) a = pairs_at cond num a num 0 ++ pairs_from cond num left (a + 1)

  unfoldable pub input_pairs : List ℕ → ℕ → List Pair
  input_pairs conditions j =
      let num = 2 ^ f.bitsize j in pairs_from (get_condition conditions j) num num 0

  -- `SetupPairs(pairs, indices)`: the lists of pairs of the inputs from `j` on, and whether all of them have one. The
  -- source goes from the last input down and stops at the first list that is empty; the lists are used only if none
  -- is.
  unfoldable pub setup_from : List ℕ → ℕ → ℕ → List (List Pair)
  setup_from conditions zero j = []
  setup_from conditions (suc left) j = input_pairs conditions j ∷ setup_from conditions left (j + 1)

  unfoldable pub all_filled : List (List Pair) → Bool
  all_filled [] = true
  all_filled (ps ∷ pairs) = not (length ps == 0) && all_filled pairs

  -- `GetPair(pairs, indices)`: the inputs chosen.
  unfoldable pub chosen : List (List Pair) → List ℕ → List Pair
  chosen [] indices = []
  chosen (ps ∷ pairs) [] = []
  chosen (ps ∷ pairs) (i ∷ indices) = get_or ps i no_pair ∷ chosen pairs indices

  -- `IsPair(val)`, on the outputs from `i` on.
  unfoldable pub is_pair : List ℕ → List Pair → ℕ → Bool
  is_pair conditions [] i = true
  is_pair conditions (p ∷ ps) i =
      not (bit_and (get_condition conditions i) (pair_mask i p) == 0)
      && is_pair conditions ps (i + 1)

  -- `Propagate::Collect(val)`, on the parameters from `i` on.
  unfoldable pub collect : List ℕ → List Pair → ℕ → List ℕ
  collect output [] i = output
  collect output (p ∷ ps) i =
      collect (set_condition output i (bit_or (get_condition output i) (pair_mask i p))) ps (i + 1)

-- `Index`: the indices and their sizes. `settle` is the loop of `Increment()` from an index on, where the carry
-- has been added, and `true` means that there is a next choice.
unfoldable pub settle : List ℕ → List ℕ → List ℕ × Bool
settle [] sizes = ([], true)
settle (v ∷ vs) [] = (v ∷ vs, true)
settle (v ∷ []) (s ∷ sizes) = if v == s then (v ∷ [], false) else (v ∷ [], true)
settle (v ∷ w ∷ vs) (s ∷ sizes) =
    let carried = settle ((w + 1) ∷ vs) sizes in
    let plain = settle (w ∷ vs) sizes in
    if v == s then (0 ∷ carried.0, carried.1) else (v ∷ plain.0, plain.1)

unfoldable pub increment : List ℕ → List ℕ → List ℕ × Bool
increment [] sizes = settle [] sizes
increment (v ∷ vs) sizes = settle ((v + 1) ∷ vs) sizes

-- The number of choices, which is fuel enough.
unfoldable pub count_choices : List (List Pair) → ℕ
count_choices [] = 1
count_choices (ps ∷ pairs) = length ps * count_choices pairs

-- `Loop<A>` of an action that keeps a state: `act` is its `Collect(val)`.
module _ {S : Type 0} (f : BitFunction) (input : List ℕ) (act : List Pair → S → S) where
  -- The body of the loop at a choice of indices.
  unfoldable pub try_choice : List (List Pair) → List ℕ → S → S
  try_choice pairs indices state =
      let xs = chosen f pairs indices in
      let ys = f.apply xs in if is_pair f input ys f.inputs then act (xs ++ ys) state else state

  -- The loop with fuel, from a choice of indices on.
  unfoldable pub choice_loop : ℕ → List (List Pair) → List ℕ → S → S
  choice_loop zero pairs indices state = state
  choice_loop (suc fuel) pairs indices state =
      let tried = try_choice pairs indices state in
      let next = increment indices (map length pairs) in
      let rest = choice_loop fuel pairs next.0 tried in if next.1 then rest else tried

  -- `Loop<A>(input)` from the state that `Initialize` leaves up to the call of `Finalize`.
  unfoldable pub loop : S → S
  loop start =
      let pairs = setup_from f input f.inputs 0 in
      if all_filled f pairs
      then choice_loop (count_choices pairs) pairs (replicate f.inputs 0) start
      else start

-- `Loop<Propagate<F>>(input)`.
unfoldable pub propagate : BitFunction → List ℕ → List ℕ
propagate f input = loop f input (λ val output. collect f output val 0) (no_conditions f)
