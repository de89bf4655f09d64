-- ===== src/UnitTests/Literals/Default.antt =====
-- `test_hyperlogloglog` of hyperlogloglog/test.cpp.
use hyperlogloglog.Base.{ℕ, Bool, false, some, none, replicate, List, [], ◌∷◌, ◌&&◌, ◌==◌}
use hyperlogloglog.PackedMap
use hyperlogloglog.HyperLogLogLog.State.{
  HyperLogLogLog, compress_default, when_append, type_increase,
}
use hyperlogloglog.HyperLogLogLog.State as Sketch
use hyperlogloglog.HyperLogLogLog.Update.{add_jr, bit_size}
use hyperlogloglog.UnitTests.Literals.{reads, exceptions_are}

-- `bitSize()`, `getM().size()`, `getS().size()`, `getB()`, `getLowerBound()`, `getCompressCount()`
-- and `getRebaseCount()`.
unfoldable pub numbers_are : ℕ → ℕ → ℕ → ℕ → ℕ → ℕ → HyperLogLogLog → Bool
numbers_are bits exceptions base low compressed rebased h =
    (bit_size h == bits)
    && (h.offsets.size == 16)
    && (PackedMap.size h.sparse == exceptions)
    && (h.base == base)
    && (h.lower_bound == low)
    && (h.compress_count == compressed)
    && (h.rebase_count == rebased)

-- The register offsets and the exceptions.
unfoldable pub stored_are : List ℕ → List (ℕ × ℕ) → HyperLogLogLog → Bool
unfolding reads exceptions_are
stored_are offsets es h = reads 0 offsets h.offsets && exceptions_are 0 es h

unfoldable pub literal_run : HyperLogLogLog → Bool
unfolding numbers_are stored_are
literal_run h₀ =
    let h₁ = add_jr h₀ 0 1 in
    let h₂ = add_jr h₁ 1 7 in
    let h₃ = add_jr h₂ 2 8 in
    let h₄ = add_jr h₃ 3 8 in
    let h₅ = add_jr h₄ 2 9 in
    let h₆ = add_jr h₅ 4 9 in
    let h₈ = add_jr (add_jr h₆ 5 9) 6 9 in
    let h₁₀ = add_jr (add_jr h₈ 7 9) 8 9 in
    let h₁₁ = add_jr h₁₀ 9 9 in
    let h₁₂ = add_jr h₁₁ 10 9 in
    let h₁₇ = add_jr (add_jr (add_jr (add_jr (add_jr h₁₂ 11 2) 12 2) 13 2) 14 2) 15 2 in
    let h₁₈ = add_jr h₁₇ 0 2 in
    let h₂₁ = add_jr (add_jr (add_jr h₁₈ 0 1) 15 1) 10 5 in
    numbers_are 48 0 0 0 0 0 h₀
    && numbers_are 48 0 0 0 1 0 h₁
    && stored_are (1 ∷ replicate 15 0) [] h₁
    && numbers_are 48 0 0 0 2 0 h₂
    && stored_are (1 ∷ 7 ∷ replicate 14 0) [] h₂
    && numbers_are 58 1 0 0 3 0 h₃
    && stored_are (1 ∷ 7 ∷ replicate 14 0) ((2, 8) ∷ []) h₃
    && numbers_are 68 2 0 0 4 0 h₄
    && stored_are (1 ∷ 7 ∷ replicate 14 0) ((2, 8) ∷ (3, 8) ∷ []) h₄
    && numbers_are 68 2 0 0 5 0 h₅
    && stored_are (1 ∷ 7 ∷ replicate 14 0) ((2, 9) ∷ (3, 8) ∷ []) h₅
    && numbers_are 78 3 0 0 6 0 h₆
    && numbers_are 98 5 0 0 8 0 h₈
    && numbers_are 118 7 0 0 10 0 h₁₀
    && numbers_are 118 7 7 0 11 1 h₁₁
    && numbers_are 108 6 7 0 12 1 h₁₂
    && numbers_are 58 1 2 1 17 2 h₁₇
    && numbers_are 48 0 2 2 18 2 h₁₈
    && (h₂₁.compress_count == 18)
    && (h₂₁.rebase_count == 2)

unfoldable pub test_hyperlogloglog : Bool
unfolding literal_run
test_hyperlogloglog = elim (Sketch.new 16 3 compress_default) [
  | none ↦ false
  | some h ↦ literal_run h
]
