-- ===== src/Tests/Slices.antt =====
-- src/word_container.h and src/bitslice_data.h at concrete conditions.
use nldtool.Base.{ℕ, ◌+◌, ◌-◌, ◌≤◌, ◌<◌, ◌≡◌, ◌↔◌, refl, arith, Bool, true, List, [], ◌∷◌, bit_and}
use nldtool.Bits.{bit}
use nldtool.DynamicCache.{DynamicCache}
use nldtool.DynamicCache.Right.{dynamic_cache, dynamic_cache_laws, empty-Holds}
use nldtool.Bitslice.Sorted.{compute}
use nldtool.Bitslice.Symmetric.{xor-IsSymmetric}
use nldtool.Bitslice.Cached.{compute-propagate}
use nldtool.WordContainer.Fields.{equals-exact}
use nldtool.Utils.{mask}
use nldtool.WordContainer.{get, set_range, equals}
use nldtool.WordContainer.Fields.{get-set_range}
use nldtool.Bitslice.{params, num_words, get_condition, propagate}
use nldtool.Bitslice.Conditions.{IsBitFunction}
use nldtool.Bitslice.Classes.{xor_class, if_class}
use nldtool.Bitslice.Bitwise.{xor-IsBitFunction, if-IsBitFunction}
use nldtool.Bitslice.Optimal.{Admitted, propagate-optimal}
use nldtool.Bitslice.Closure.{propagate-idempotent}

get-set_range_example :
    get (set_range (7 ∷ 9 ∷ []) 60 67 171) 60 67 ≡ bit_and 171 (mask (67 - 60 + 1))
get-set_range_example =
    get-set_range (7 ∷ 9 ∷ []) 60 67 171 (omega arith) (omega arith) (omega arith)

xor2_ok : IsBitFunction (xor_class 2)
xor2_ok = xor-IsBitFunction 1 2 (omega arith) (omega arith) (omega arith)

-- No difference in the inputs, and any output.
abbrev open_output : List ℕ
open_output = 3993 ∷ []

propagate_run : propagate (xor_class 2) open_output ≡ 2457 ∷ []
unfolding propagate nldtool.Bitslice.all_filled nldtool.Bitslice.setup_from
    nldtool.Bitslice.input_pairs nldtool.Bitslice.pairs_from nldtool.Bitslice.pairs_at bit
    get_condition get nldtool.Bitslice.condition_index nldtool.Utils.get_window_bits
    nldtool.Bits.shr mask nldtool.Bits.not64 nldtool.Bitslice.choice_loop
    nldtool.Bitslice.count_choices nldtool.Bitslice.increment nldtool.Bits.shl
    nldtool.Bitslice.chosen nldtool.Bitslice.collect nldtool.Bitslice.is_pair
    nldtool.Bitslice.no_conditions nldtool.Bitslice.num_words nldtool.Bitslice.set_condition
    nldtool.Bitslice.settle nldtool.Bitslice.loop nldtool.Bitslice.try_choice
    nldtool.Utils.set_window_bits set_range nldtool.Bitslice.Classes.xor_all nldtool.Functions.xor_f
    nldtool.Pair.exor
propagate_run = refl

propagate-optimal_example :
    (bit (get_condition (xor_class 2) (propagate (xor_class 2) open_output) 2) 3 ≡ true)
    ↔ Admitted (xor_class 2) xor2_ok open_output 2 3 (omega arith)
propagate-optimal_example = propagate-optimal (xor_class 2) xor2_ok open_output 2 3 (omega arith)

propagate-idempotent_example :
    get_condition if_class (propagate if_class (propagate if_class (0xf9f9 ∷ []))) 3
    ≡ get_condition if_class (propagate if_class (0xf9f9 ∷ [])) 3
propagate-idempotent_example =
    propagate-idempotent if_class if-IsBitFunction (0xf9f9 ∷ []) 3 (omega arith)

-- The function of the two inputs that keeps its table when they are exchanged, with a cache that evicts.
abbrev same_words : List ℕ → List ℕ → Bool
same_words = equals

abbrev empty_cache : DynamicCache (List ℕ) (List ℕ)
empty_cache = record { entries = []; capacity = 1; lru = [] }

one_word : num_words (xor_class 2) ≤ 1
unfolding num_words nldtool.Bitslice.condition_index
one_word = omega arith

compute-propagate_example :
    ((j : ℕ)
      → j < params (xor_class 2)
      → get_condition
          (xor_class 2)
          (compute (xor_class 2) (dynamic_cache same_words) (0xf69 ∷ []) empty_cache).0
          j
        ≡ get_condition (xor_class 2) (propagate (xor_class 2) (0xf69 ∷ [])) j)
    × (dynamic_cache_laws same_words equals-exact
          (λ key value. value ≡ propagate (xor_class 2) key)).Holds
        (compute (xor_class 2) (dynamic_cache same_words) (0xf69 ∷ []) empty_cache).1
compute-propagate_example =
    compute-propagate (xor_class 2) xor2_ok (xor-IsSymmetric 1 2) (dynamic_cache same_words)
      (dynamic_cache_laws same_words equals-exact
        (λ key value. value ≡ propagate (xor_class 2) key))
      (0xf69 ∷ []) empty_cache (omega arith) one_word
      (empty-Holds same_words equals-exact (λ key value. value ≡ propagate (xor_class 2) key) 1 [])
