-- ===== src/Tests/Requires.antt =====
-- The tests of hyperlogloglog/test.cpp with a few draws, and numbers as their own hashes.
use hyperlogloglog.UnitTests.Vectors.{Draws, test_packed_vector2, AreDrawn}
use hyperlogloglog.UnitTests.Vectors.Passes.{test_packed_vector2-passes}
use hyperlogloglog.Base.{◌++◌, ℕ, ◌^◌, ◌==◌, ◌≡◌, refl, arith, true, List, [], ◌∷◌}
use hyperlogloglog.UnitTests.Adds.{AreUsable}
use hyperlogloglog.Registers.{Stream, IsInRange, max_rank}
use hyperlogloglog.Base.Tables.{tabulate}
use hyperlogloglog.UnitTests.Histories.{pair_of, AreNumbers}
use hyperlogloglog.Measure.{farmhash_word, farmhash_str}
use hyperlogloglog.UnitTests.Cases.{
  test_hyperlogloglog_uint64, test_hyperlogloglog_string, test_hyperlogloglog_bottom_uint64,
  test_hyperlogloglog_bottom_str, test_hyperlogloglog_bottom_jr, cases_pass,
}
use hyperlogloglog.UnitTests.Merges.{test_merges, test_merges-passes}
use hyperlogloglog.UnitTests.Compressed.{test_zstd, test_zstd-passes}
use hyperlogloglog.Tests.Systems.{
  farm, small_floats, equal_to_itself, store_only, store_only-IsLossless,
}

abbrev words : List ℕ
words = 5 ∷ 77 ∷ []

abbrev strings : List (List ℕ)
strings = (97 ∷ 98 ∷ []) ∷ (99 ∷ []) ∷ []

AreUsable-words : AreUsable (farmhash_word farm) words
unfolding farmhash_word
AreUsable-words = ((omega arith, omega arith), ((omega arith, omega arith), tt))

AreUsable-strings : AreUsable (farmhash_str farm) strings
unfolding farmhash_str
AreUsable-strings = ((omega arith, omega arith), ((omega arith, omega arith), tt))

abbrev draws : Stream
draws = (5, 9) ∷ (1023, 63) ∷ []

IsInRange-draws : IsInRange 1024 draws
IsInRange-draws = (omega arith, omega arith, (omega arith, omega arith, tt))

-- These numbers have no NaN.
AreNumbers-small :
    (m : ℕ) {A : Type 0} (pair : A → ℕ × ℕ) (xs : List A) (s : Stream)
    → AreNumbers small_floats (λ a b. a == b) m pair xs s
AreNumbers-small m pair [] s = tt
AreNumbers-small m pair (x ∷ xs) s = (
  equal_to_itself m (tabulate (max_rank (pair x ∷ s)) m),
  AreNumbers-small m pair xs (pair x ∷ s),
)

cases_pass_example :
    (test_hyperlogloglog_uint64 small_floats (λ a b. a == b) farm words ≡ true)
    × (test_hyperlogloglog_string small_floats (λ a b. a == b) farm strings ≡ true)
    × (test_hyperlogloglog_bottom_uint64 small_floats (λ a b. a == b) farm words ≡ true)
    × (test_hyperlogloglog_bottom_str small_floats (λ a b. a == b) farm strings ≡ true)
    × (test_hyperlogloglog_bottom_jr small_floats (λ a b. a == b) farm draws ≡ true)
cases_pass_example =
    cases_pass small_floats (λ a b. a == b) farm words strings draws AreUsable-words
      AreUsable-strings IsInRange-draws
      (AreNumbers-small 128 (λ x. pair_of 128 (farmhash_word farm x)) words [])
      (AreNumbers-small 32 (λ x. pair_of 32 (farmhash_str farm x)) strings [])
      (AreNumbers-small 256 (λ x. pair_of 256 (farmhash_word farm x)) words [])
      (AreNumbers-small 1024 (λ x. x) draws [])

test_merges-passes_example :
    test_merges small_floats (λ a b. a == b) (2 ^ 1) (((3, 9) ∷ (20, 1) ∷ []) ∷ []) ≡ true
test_merges-passes_example =
    test_merges-passes 1 (omega arith) small_floats (λ a b. a == b) (((3, 9) ∷ (20, 1) ∷ []) ∷ [])
      (refl, (omega arith, omega arith, (omega arith, omega arith, tt)), tt)
      (
        equal_to_itself (2 ^ 1)
            (tabulate (max_rank (((1, 20) ∷ (0, 3) ∷ []) ++ ((1, 1) ∷ (0, 9) ∷ []))) (2 ^ 1)),
        tt,
      )

zstd_draws :
    test_zstd small_floats (λ a b. a == b) store_only (2 ^ 2) (farmhash_word farm) words ≡ true
zstd_draws =
    test_zstd-passes small_floats (λ a b. a == b) store_only-IsLossless 2 (omega arith)
      (omega arith) (farmhash_word farm) words AreUsable-words
      (AreNumbers-small (2 ^ 2) (λ x. pair_of (2 ^ 2) (farmhash_word farm x)) words [])

abbrev two_rounds : Draws
two_rounds = record {
  written = 1023 ∷ 7 ∷ [];
  appended = 0 ∷ 512 ∷ [];
  inserted = (3, 4) ∷ (0, 1000) ∷ [];
  erased = 5 ∷ 0 ∷ [];
}

two_rounds-AreDrawn : AreDrawn 2 two_rounds
two_rounds-AreDrawn = record {
  counts = (refl, refl, refl, refl);
  written = (omega arith, (omega arith, tt));
  appended = (omega arith, (omega arith, tt));
  inserted = (omega arith, omega arith, (omega arith, omega arith, tt));
  erased = (omega arith, (omega arith, tt));
}

test_packed_vector2-passes_example : test_packed_vector2 2 two_rounds ≡ true
test_packed_vector2-passes_example =
    test_packed_vector2-passes 2 two_rounds (omega arith) two_rounds-AreDrawn
