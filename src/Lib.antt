-- ===== src/Lib.antt =====
-- A verification library for the sketches of this repository that count distinct elements,
-- HyperLogLog and its compressed forms HyperLogLogLog and HyperLogLogZstd, and for the programs
-- that generate inputs for them and measure them.
--
-- The program. A stream of elements is hashed; each hash gives an index `j` (the Fibonacci
-- hash) and a rank `r` (the place of its highest bit). A sketch holds the greatest rank for
-- each of `m` indices, its registers. HyperLogLog stores them as 6-bit elements of a packed
-- vector. HyperLogLogLog stores most registers as short offsets above a base, in a packed
-- vector, and the others as exceptions in a sorted packed map; it chooses a new base from time
-- to time. HyperLogLogZstd keeps a byte for each register and compresses the bytes by zstd. The
-- generator writes words, strings or pairs of an index and a rank to standard output; the
-- benchmark reads them from standard input, adds them to one sketch, or to two that it merges,
-- and reports the estimate of the number of distinct elements.
--
-- Base: shared names, lists indexed by native numbers, lists as tables of functions (Tables),
-- single bits, and words of 64 bits. `wrap` is the remainder by 2 ^ 64, `shl` and `shr` are the
-- shifts of a word.
--
-- PackedVector (hyperlogloglog/PackedVector.hpp): `get`, `set_at` (set), `append`, `insert`,
-- `erase`, `copy` and `swap` on a list of words. Fields has the bits that a read and a write
-- touch, Valid the representation invariant, Elements, Shifts, Insert and Casts the behaviour
-- of the operations, Reference the lists that `std::vector` would hold, Assign the moves and
-- assignments.
--
-- PackedMap (hyperlogloglog/PackedMap.hpp): `find`, `add`, `erase`, `erase_at`, `at` and
-- `key_at` on a packed vector of pairs. Entries has the invariant, Find the binary search,
-- Lookup the abstract partial function from keys to values; Add, Overwrite, Insert and Laws say
-- what the operations do to it.
--
-- Common (hyperlogloglog/common.hpp, hyperlogloglog/Hash.hpp): `clz`, `rho`, `log2i` and
-- `fibonacci_hash`.
--
-- Registers: the meaning of a sketch, the greatest rank that a stream has at an index.
--
-- HyperLogLog (hyperlogloglog/HyperLogLog.hpp): the uncompressed sketch; Add, Export, Merge and
-- Streams have what its operations do to the registers. `adds` is the loop of
-- hyperlogloglog/measure.cpp over a stream.
--
-- HyperLogLogLog (hyperlogloglog/HyperLogLogLog.hpp): State has the fields and the constructor,
-- Registers `get`, `iterate` and `rebase`, Compress the three compressions, Update `add_jr` and
-- what calls it. Merge has `merge`, whose three loops share the round `merge_round`. Shape and
-- Rebase have the invariant, Moved the loop of `rebase`; Iterate, Search, Keeps, Refine, New,
-- Streams, Config, Flags, Convert and the children of Merge what the operations do to the
-- registers. Least has the search for a base, with Rounds and Counts for what it counts. Search
-- has the end of that search. Optimum has `minimum_bits`, and Fits in it when no `int`
-- overflows. Tight says that exactly the exceptions from the base are stored, and Best in it
-- that the base is one with the fewest; History has every interleaving of the constructor,
-- `addJr` and `merge` as an indexed family, with what holds of the sketches in it, and View the
-- abstract state, as a quotient of the streams. Bottom has the bottom mode, with Occurrences
-- for what it counts; Getters has the getters.
--
-- Estimate (HyperLogLog::alpha and the body of the three methods estimate): the estimate over
-- an unknown type of floating-point numbers, so that two estimates that are equal here are
-- equal to the last bit. The children Estimate of the sketches have their loops.
--
-- HyperLogLogZstd (hyperlogloglog/HyperLogLogZstd.hpp): the sketch with the zstd library as the
-- parameter `Zstd`, whose documented round trip is `IsLossless`. Valid, Add and Streams have
-- what its operations do to the registers.
--
-- Input (hyperlogloglog/measure.hpp) and Generator (inputgenerator/inputgenerator.cpp):
-- `read_uint64`, `read_str` and `read_jr` are `readData`, on bytes; `generate_uint64`,
-- `generate_str` and `generate_jr` are the generators. Main has the command line.
-- Common.ByteOrder has `htonll` and `ntohll`.
--
-- Measure (hyperlogloglog/measure.cpp): the two modes for any sketch class; Sketches has the
-- four classes, Hasher the one that only hashes, Main the command line. IsSketch in Laws is
-- what the benchmark needs of a class; Represent, RepresentZstd and RepresentLogLogLog are the
-- three sketches that have it, Modes and Agree what follows, Hashed when data are in range.
--
-- Datasketches (datasketches/measure.cpp): the benchmark of Apache DataSketches, whose classes
-- are parameters.
--
-- UnitTests (hyperlogloglog/test.cpp): the test cases that draw their input and have to pass
-- whatever is drawn, as long as no estimate is a NaN, as functions of the draws into Bool. The
-- `==` of two floating-point numbers is a parameter; that an estimate on the way is no NaN is a
-- condition on what is drawn. The numbers of registers are those of the code in Cases; the
-- casts of sizes to `int` change nothing there. Histories has what the test cases for sketches
-- share. Vectors is the test of packed vectors beside a `std::vector`, and Literals are tests
-- that compare with literals, which Tests.Literals runs.
--
-- Tests: the theorems at concrete inputs and small runs of the definitions.
--
-- Numbers and bounds. `Word` is `uint64_t`. Sizes and words are native numbers that wrap where
-- the code's types wrap; an `int` that the code counts with is a native number below 2 ^ 31
-- where the bounds on `m` keep it there, and else the 32-bit pattern. A vector has a limit on
-- its elements for which no bit address wraps. A map has at most 2 ^ 30 pairs, so that the sum
-- in its binary search does not overflow; a HyperLogLog has fewer than 2 ^ 31 registers and a
-- HyperLogLogLog at most 2 ^ 30, the greatest power of two that an `int` holds. `minimumBits`
-- computes in `int`s; with at most 2 ^ 25 registers none of them overflows, and where one
-- would, `minimum_bits` is `none`. The casts of `insert` are exact below 2 ^ 31 elements. A
-- shift by 64, which C++ leaves undefined and `fibonacciHash` has with one register, is taken
-- as no shift.
--
-- Fuel. The search of a map has one round more than the map has pairs, and every round leaves a
-- shorter range; `log2i` has as much fuel as its argument, which every round halves; the search
-- for a base has 65 rounds, as the potential bases ascend and end at 64; the first loop of
-- `merge` has as many rounds as the two sketches have exceptions, and each takes one at least.
-- All other loops are by structural recursion on the rounds that are left.
--
-- Not modelled: the rounding of floating-point numbers, the clock and the texts that are
-- printed, the parser of the command line (TCLAP), the tests in hyperlogloglog/test.cpp that
-- compare with literals or with what one seed gives, zetasketch/, which measures another
-- library, the library in datasketches/ but for measure.cpp, and the libraries under external/,
-- of which the code's calls are parameters: farmhash, zstd and the classes of DataSketches, and
-- also the random number generator, `htonl` and `ntohl`. An exception is the value `none`, and
-- so is an assertion that fails in the benchmark; for `main` it is the outcome without a
-- report. `append` is what it does when its assertion is compiled out; the assertion is
-- `append_asserts`. Memory is by value, since every vector owns its array; whether the pointer
-- is null is kept for the assertion of `append`.
pub mod Base
pub mod PackedVector
pub mod PackedMap
pub mod Common
pub mod Registers
pub mod Estimate
pub mod Input
pub mod Generator
pub mod HyperLogLog
pub mod HyperLogLogZstd
pub mod HyperLogLogLog
pub mod Measure
pub mod Datasketches
pub mod UnitTests
pub mod Tests
