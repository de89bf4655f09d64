-- ===== src/UnitTests/Cases.antt =====
-- The test cases of hyperlogloglog/test.cpp whose every `REQUIRE` holds whatever is drawn, as long
-- as no estimate is a NaN, with their numbers of registers. The draws are arguments.
use hyperlogloglog.Base.{[], ℕ, ◌≡◌, arith, Bool, true, ◌&&◌, List}
use hyperlogloglog.Registers.{Stream, IsInRange}
use hyperlogloglog.Estimate.{Floats}
use hyperlogloglog.Measure.{Farm, farmhash_word, farmhash_str}
use hyperlogloglog.UnitTests.Histories.{pair_of, AreNumbers}
use hyperlogloglog.UnitTests.Adds.{AreUsable, test_adds, test_adds-passes}
use hyperlogloglog.UnitTests.Bottom.{test_bottom, test_bottom_jr, test_flags}
use hyperlogloglog.UnitTests.Bottom.Laws.{
  test_bottom-passes, test_bottom_jr-passes, test_flags-passes,
}

module _ {ℓ} {F : Type ℓ} (d : Floats F) (eq : F → F → Bool) (farm : Farm) where
  unfoldable pub test_hyperlogloglog_uint64 : List ℕ → Bool
  test_hyperlogloglog_uint64 xs = test_adds d eq 128 (farmhash_word farm) xs

  unfoldable pub test_hyperlogloglog_string : List (List ℕ) → Bool
  test_hyperlogloglog_string xs = test_adds d eq 32 (farmhash_str farm) xs

  unfoldable pub test_hyperlogloglog_bottom_uint64 : List ℕ → Bool
  test_hyperlogloglog_bottom_uint64 xs =
      test_flags 256 && test_bottom d eq 256 (farmhash_word farm) xs

  unfoldable pub test_hyperlogloglog_bottom_str : List (List ℕ) → Bool
  test_hyperlogloglog_bottom_str xs = test_bottom d eq 32 (farmhash_str farm) xs

  unfoldable pub test_hyperlogloglog_bottom_jr : Stream → Bool
  test_hyperlogloglog_bottom_jr draws = test_bottom_jr d eq 1024 draws

  -- The test cases of test.cpp for words and strings, and those for words, strings and pairs in
  -- the bottom mode, pass if the hashes of the words and strings are 64-bit words other than 0
  -- and 1, the indices of the pairs are below 1024 and their ranks below 64, and after each
  -- draw the estimate of the greatest ranks is no NaN, which is that it is equal to itself.
  pub cases_pass :
      (words : List ℕ) (strings : List (List ℕ)) (draws : Stream)
      → AreUsable (farmhash_word farm) words
      → AreUsable (farmhash_str farm) strings
      → IsInRange 1024 draws
      → AreNumbers d eq 128 (λ x. pair_of 128 (farmhash_word farm x)) words []
      → AreNumbers d eq 32 (λ x. pair_of 32 (farmhash_str farm x)) strings []
      → AreNumbers d eq 256 (λ x. pair_of 256 (farmhash_word farm x)) words []
      → AreNumbers d eq 1024 (λ x. x) draws []
      → (test_hyperlogloglog_uint64 words ≡ true)
        × (test_hyperlogloglog_string strings ≡ true)
        × (test_hyperlogloglog_bottom_uint64 words ≡ true)
        × (test_hyperlogloglog_bottom_str strings ≡ true)
        × (test_hyperlogloglog_bottom_jr draws ≡ true)
  unfolding test_hyperlogloglog_uint64 test_hyperlogloglog_string test_hyperlogloglog_bottom_uint64
      test_hyperlogloglog_bottom_str test_hyperlogloglog_bottom_jr
  cases_pass words strings draws word_hashes string_hashes range numbers₁ numbers₂ numbers₃
        numbers₄ =
      (
        test_adds-passes 7 (omega arith) d eq (omega arith) (omega arith) (farmhash_word farm) words
            word_hashes numbers₁,
        test_adds-passes 5 (omega arith) d eq (omega arith) (omega arith) (farmhash_str farm)
            strings string_hashes numbers₂,
        ground (
          arith,
          test_flags-passes 8 (omega arith),
          test_bottom-passes 8 (omega arith) d eq (omega arith) (omega arith) (farmhash_word farm)
              words word_hashes numbers₃,
        ),
        test_bottom-passes 5 (omega arith) d eq (omega arith) (omega arith) (farmhash_str farm)
            strings string_hashes numbers₂,
        test_bottom_jr-passes 10 (omega arith) d eq (omega arith) (omega arith) draws range
            numbers₄,
      )
