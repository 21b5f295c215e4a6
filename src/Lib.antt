-- ===== src/Lib.antt =====
-- nldtool: a tool that searches differential characteristics of hash functions. This library models its
-- core data structures (src/ in the repository) and proves that they compute what they stand for.
--
-- Parts and files:
--   * Base (shared names, Boolean tests, lists by native numbers, parity) and Bits (the bits of a number, C's
--     operators on 64-bit words with the wrap written out) are the shared helpers.
--   * Utils: src/utils.h. Utils.Lsb is about LeastSignificantSetBitmask, Utils.Windows about
--     the bits of Mask, GetWindowBits and SetWindowBits.
--   * BitMatrix: src/bit_matrix.h, src/bit_matrix.cpp and src/row.h. The matrix over GF(2) keeps its rows as blocks of
--     words in `words` (data_), a table of blocks and pivots in `row_table` (row_), and the table's inverse
--     in `row_inverse` (rowinv_). Blocks, Pivot, Invariant, Update, Equation, Sort, UpperBound and Initial
--     are about the words, ComputePivot, the invariant, XorRowtoRow, XorRow and XorBit, SortByPivot,
--     GetPivotUpperBound and the constructor; the modules below Sort follow the loop of SortByPivot; Permute
--     defines ApplyPermutation, and Getters GetLast, GetBitsSet and GetPivotRowCount.
--   * Change: the kinds of change of src/change.h.
--   * LinearMatrix: src/linear_matrix.h, src/linear_matrix.cpp and src/tinyset.h. A system of equations over a
--     BitMatrix, whose column RHS holds the right-hand sides, with the log of changes and the rows that wait for
--     EpsilonGauss. Solutions says when an assignment satisfies a system; Measure, Keeps, Added, Eliminate and Gauss
--     are about EpsilonGauss; Enter, Equation and Sound about AddEquation; Listed and Again about the
--     state that AddEquation leaves; Initial about the constructor;
--     Undo defines Apply and Undo of the changes, Undo and UndoAndRestore, and Restore is about them.
--   * Bitmask: src/bitmask.h, src/bitmask.cpp and src/bitpos.h. View and Combine are about SetBits and ClearBits,
--     Assign about operator&= and operator|=, Positions about GetBitposList and First.
--   * Condition: src/condition.h and src/condition.cpp. Condition.Two and Condition.Three define Condition<2> and
--     Condition<3>; Network and Project are about the projections, Merge about the merges, Filter and Layout
--     about the filters and Single about the tables of Condition<1>.
--   * Pair and Functions: src/pair.h and src/functions.h. Functions.Lift is about the step functions on pairs of bytes,
--     and about what ADD and ADDB compute.
--   * SearchStack: src/search_stack.h and src/search_stack.cpp, for any characteristic. SearchStack.Sizes is about the number
--     of guesses. backtrack_to_other_choice takes fuel; each round takes a guess from the stack, so that more fuel than
--     guesses is enough, which SearchStack.Choice shows.
--   * DynamicCache: src/dynamic_cache.h, for any keys and values. DynamicCache.Bounds is about its size and its list,
--     DynamicCache.Recent about what is found and the order in the list.
--   * WordContainer: src/word_container.h. WordContainer.Ranges has Get and Set bit by bit, WordContainer.Fields reads back what
--     was written.
--   * Bitslice: src/bitslice_data.h, src/bitslice_pair.h, src/index.h, src/propagate.h, and Loop and Compute of src/bitslice.h for
--     Propagate (Loop takes the action's Collect and its state as arguments); the template argument F is the record BitFunction, and Bitslice.Classes has the classes of
--     src/functions.h. IsBitFunction says what F has to meet, Bitslice.Bitwise shows it of the bitwise functions. The
--     loop takes the number of choices as fuel: Bitslice.Counter shows that Increment goes through all of them, and
--     Bitslice.Solutions, Bitslice.Loop, Bitslice.Optimal and Bitslice.Closure are about what the loop leaves.
--     Bitslice.Sorted has SortInput,
--     ResortOutput and Compute, for any cache with the interface of src/cache_base.h; Bitslice.Symmetric shows that
--     exclusive or has the symmetry that it declares, and DynamicCache.Right that src/dynamic_cache.h is such a cache.
--   * Bitslice.Twobit: src/propagate_twobit.h, src/bitslice_twobit_condition.h, ResortOutput of
--     src/propagate_twobit_output.cpp and ComputeTwobit of src/bitslice.h, without DIFFTWOBIT. Twobit.Values is about
--     what Collect compares and what it shows of longer parameters, Twobit.Found about one two-bit condition in the loop, Twobit.Listed about the lists of
--     Initialize and Finalize, Twobit.Moved and Twobit.Sorted about the order of the parameters.
--   * Characteristic: src/characteristic.cpp and src/characteristic.h with src/condition_container.h, src/step_update.h,
--     src/container_condition_proxy.cpp, and Update of src/bitslice_step.h. Proxies are shared objects: a step names them
--     by number, and a write is seen by every step that reads the proxy. Cells reads what was written, Queue is about
--     the set of step updates, Converted about the conversions of SetCondition, Wired says what Init and the layout of the words set up, Writes, Runs and Settles follow
--     SetCondition and Update of a step, and Update and All the loop over the steps. Update takes fuel; Potential has
--     the number that each round makes smaller: the conditions as numbers, times the most step updates that a change
--     adds and one, and the step updates that are left.
--   * TwobitContainer: src/twobit_container.cpp, src/twobit_condition.h and the order of src/bitpos.h; TwobitContainer.Order
--     is about the order, TwobitContainer.Degrees about ComputeTwobitDegrees, TwobitContainer.Threshold about
--     GetTwobitDegreeMask.
--   * Tests: the theorems at concrete inputs.
--
-- How the code is read: a function on an object returns the new object, with the result beside it where there is
-- one; an int is a natural number, and where the source may reach -1 the models count from one above. A
-- std::set<int> is the increasing list of its elements, a std::vector a list.
--
-- Fuel: EpsilonGauss takes fuel for its outer loop and returns none without it. Every round lowers the sum over
-- the rows of the distance of the pivot from the end of the row, twice, and the number of waiting rows;
-- LinearMatrix.Sound.enough_fuel bounds that sum. The binary search of GetPivotUpperBound takes the
-- number of rows, and SortByPivot the number of rows, as fuel;
-- ApplyPermutation takes one more, and Log2 its argument.
--
-- Not modelled: printing, XML and text formats, the log file and the example programs, which are input and output;
-- the search, which drives the structures above by configuration and a random generator; linear steps, the condition
-- words, and the condition proxies that only pass on to others; of the characteristic its masks, Complete,
-- CheckCharacteristic and what follows a step that is not a bitslice step; probability matrices, which compute in
-- floating point. std::sort may order rows of equal pivot in any way; the model keeps their order.
pub mod Base
pub mod BitMatrix
pub mod Bitmask
pub mod Bits
pub mod Bitslice
pub mod Change
pub mod Characteristic
pub mod Condition
pub mod DynamicCache
pub mod Functions
pub mod LinearMatrix
pub mod Pair
pub mod SearchStack
pub mod Tests
pub mod TwobitContainer
pub mod Utils
pub mod WordContainer
