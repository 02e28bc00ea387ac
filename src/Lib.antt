-- ===== src/Lib.antt =====
-- The virtual machine of Newspeak under `vm/`: a model of its components, one by one.
--
-- `Large` (`vm/large_integer.cc`, class `LargeInteger` of `vm/object.h`): a large integer is a
-- record of a sign and a list of 32-bit digits, the least significant first, as on a 64-bit
-- machine. A loop over the digits that fills a result is a recursion that yields the list of
-- them, and the accumulators keep their 64-bit width (`Base/Words`). Digits has the list of
-- digits and `Clamp`; Sum, Product and Bitwise have the digit loops of the addition, subtraction
-- and increment, of the multiplication and of the bit operations; Signed has `Verify`,
-- `AbsCompare`, `Compare`, `Add`, `Subtract` and `Multiply`; Shift has `ShiftLeft` and
-- `ShiftRight`; Number has the three representations of integers and `Expand`, `Reduce`,
-- `AsUint64` and `FromUint64`, which go from one to another; Divide has `Divide`, by one digit
-- and by more. A round of the division by more, which is Knuth's algorithm D, is of Estimate,
-- Subtract and Round; Rounds has the loop and Normal the shifts before and after it. The loop of
-- `Expand` runs on fuel of two digits, which are enough for 64 bits; that of `again` in `Divide`
-- on three rounds, of which two are enough since the highest digit of the divisor is half of the
-- base at least. Allocation and handles leave the numbers alone. The integers are those of
-- `Base/Int`.
--
-- `PortMap` (`vm/port.cc`): the table from ports to message loops, the static fields as a record
-- that the operations pass on. A `Port` is the pattern of an `int64_t`. The mutex makes each
-- operation one step, and the numbers of the random generator are a list. The outcome `none` is
-- a fault; `Rehash` tells an index out of bounds from a probe that never ends. The probes of
-- `FindPort`, `CreatePort` and `Rehash` are `Probe`, with the capacity as fuel: a probe visits
-- no slot twice in so many steps.
--
-- PortMap/Directory says what the table promises, a directory from ports to loops in which its
-- entries do not show, and PortMap/Refinement that the operations keep it.
--
-- `Math` (`vm/math.h`, `HighestBit` of `vm/utils.h`): the overflow checks and the divisions,
-- whose operands are those that their assertions demand. What the clients of the checks use of
-- them is a record of operations and laws, which the built-in functions of a compiler are to
-- fill and which the code for compilers without these fills.
--
-- `Primitives` (`vm/primitives.cc`): the arithmetic, the divisions, the comparisons, the bit
-- operations and the shifts of numbers as functions of the two operands. They use `Large` where
-- an operand or the result needs it, the overflow checks of `Math`, and the arithmetic of
-- `double`, which is a parameter. `TEST_SLOW_PATH` is off. Running out of memory is an outcome
-- of a shift, elsewhere there is enough; that a division gets to `UNREACHABLE` is one too.
--
-- `ThreadPool` (`vm/thread_pool.cc`): the fields that the mutex protects as a record, and each
-- section that holds it as a function. ThreadPool/System has the workers and the callers, and a
-- step relation of what a thread does between two acquisitions of a lock, so that the order of
-- the steps is any that the locks permit. Tasks, workers and their threads are numbers.
-- `Shutdown` is called once, by a thread that is no worker.
--
-- `LookupCache` (`vm/lookup_cache.h`, `vm/lookup_cache.cc`): the entries as a list, two places
-- for each key. The lookups of the interpreter that it caches are functions that the theorems
-- quantify over.
--
-- `Base` has what they share: Boolean tests, lists, words, integers, and the bits of numbers.
--
-- Assertions are off in the model: what they demand is a hypothesis or a conclusion of the
-- theorems.
--
-- Not modelled: of `vm/large_integer.cc` the printing and the conversions to and from double; of
-- `vm/primitives.cc` all but the operations named above, since most are calls of the operating
-- system or of the heap; the interpreter, the heap, the snapshots and the isolates, which work
-- on raw memory; message loops and the files per operating system, which are system calls;
-- `double-conversion`, another project's library; the Newspeak programs.
pub mod Base
pub mod Large
pub mod LookupCache
pub mod Math
pub mod PortMap
pub mod Primitives
pub mod Probe
pub mod ThreadPool
