-- ===== src/Tests/Twobits.antt =====
-- src/propagate_twobit.h at concrete conditions.
use nldtool.Base.{ℕ, ◌≤◌, ◌≡◌, ◌⊎◌, ◌↔◌, refl, arith, Bool, List, [], ◌∷◌}
use mathlib.Core.List.{Memᴰ}
use nldtool.WordContainer.{equals}
use nldtool.WordContainer.Fields.{equals-exact}
use nldtool.DynamicCache.{DynamicCache}
use nldtool.DynamicCache.Right.{dynamic_cache, dynamic_cache_laws, empty-Holds}
use nldtool.Bitslice.{num_words}
use nldtool.Bitslice.Conditions.{IsBitFunction}
use nldtool.Bitslice.Classes.{xor_class}
use nldtool.Bitslice.Bitwise.{xor-IsBitFunction}
use nldtool.Bitslice.Symmetric.{xor-IsSymmetric}
use nldtool.Bitslice.Twobit.{BitsliceTwobitCondition, propagate_twobit, compute_twobit}
use nldtool.Bitslice.Twobit.Exact.{IsTwobit, propagate_twobit-exact}
use nldtool.Bitslice.Twobit.Moved.{IsReported, turned}
use nldtool.Bitslice.Twobit.Sorted.{compute_twobit-exact}

xor2_ok : IsBitFunction (xor_class 2)
xor2_ok = xor-IsBitFunction 1 2 (omega arith) (omega arith) (omega arith)

-- Two inputs of any values whose exclusive or is 0: the inputs are equal.
abbrev no_output : List ℕ
no_output = 0x1ff ∷ []

propagate_twobit_run :
    propagate_twobit (xor_class 2) no_output ≡ record { a = 1; b = 0; c = 1 } ∷ []
unfolding propagate_twobit nldtool.Bitslice.Twobit.initialize nldtool.Bitslice.Twobit.twobits_from
    nldtool.Bitslice.Twobit.twobits_at nldtool.Bitslice.Twobit.is_candidate
    nldtool.Bitslice.Twobit.finalize nldtool.Bitslice.Twobit.collect_twobit
    nldtool.Bitslice.Twobit.update_twobit nldtool.Bitslice.Twobit.reduce_from
    nldtool.Bitslice.Twobit.reduce_pair nldtool.Bitslice.Twobit.compare_pairs
    nldtool.Utils.hamming_weight nldtool.Bitslice.loop nldtool.Bitslice.all_filled
    nldtool.Bitslice.setup_from nldtool.Bitslice.input_pairs nldtool.Bitslice.pairs_from
    nldtool.Bitslice.pairs_at nldtool.Bits.bit nldtool.Bitslice.get_condition
    nldtool.WordContainer.get nldtool.Bitslice.condition_index nldtool.Utils.get_window_bits
    nldtool.Bits.shr nldtool.Utils.mask nldtool.Bits.not64 nldtool.Bitslice.choice_loop
    nldtool.Bitslice.count_choices nldtool.Bitslice.increment nldtool.Bits.shl
    nldtool.Bitslice.chosen nldtool.Bitslice.is_pair nldtool.Bitslice.settle
    nldtool.Bitslice.try_choice nldtool.Bitslice.Classes.xor_all nldtool.Functions.xor_f
    nldtool.Pair.exor nldtool.Bits.sub64 nldtool.Bits.add64 nldtool.Bits.mul64
propagate_twobit_run = refl

abbrev equal_inputs : BitsliceTwobitCondition
equal_inputs = record { a = 1; b = 0; c = 1 }

propagate_twobit-exact_example :
    Memᴰ equal_inputs (propagate_twobit (xor_class 2) no_output)
    ↔ IsTwobit (xor_class 2) no_output equal_inputs
propagate_twobit-exact_example = propagate_twobit-exact (xor_class 2) xor2_ok no_output equal_inputs

abbrev same_words : List ℕ → List ℕ → Bool
same_words = equals

abbrev empty_cache : DynamicCache (List ℕ) (List BitsliceTwobitCondition)
empty_cache = record { entries = []; capacity = 1; lru = [] }

one_word : num_words (xor_class 2) ≤ 1
unfolding num_words nldtool.Bitslice.condition_index
one_word = omega arith

compute_twobit-exact_example :
    ((t : BitsliceTwobitCondition)
      → Memᴰ t (compute_twobit (xor_class 2) (dynamic_cache same_words) no_output empty_cache).0
      → IsReported (xor_class 2) no_output t)
    × ((t : BitsliceTwobitCondition)
        → IsReported (xor_class 2) no_output t
        → Memᴰ t (compute_twobit (xor_class 2) (dynamic_cache same_words) no_output empty_cache).0
          ⊎ Memᴰ
              (turned t)
              (compute_twobit (xor_class 2) (dynamic_cache same_words) no_output empty_cache).0)
    × (dynamic_cache_laws same_words equals-exact
          (λ key value. value ≡ propagate_twobit (xor_class 2) key)).Holds
        (compute_twobit (xor_class 2) (dynamic_cache same_words) no_output empty_cache).1
compute_twobit-exact_example =
    compute_twobit-exact (xor_class 2) xor2_ok (xor-IsSymmetric 1 2) (dynamic_cache same_words)
      (dynamic_cache_laws same_words equals-exact
        (λ key value. value ≡ propagate_twobit (xor_class 2) key))
      no_output empty_cache (omega arith) one_word
      (empty-Holds same_words equals-exact (λ key value. value ≡ propagate_twobit (xor_class 2) key)
        1 [])
