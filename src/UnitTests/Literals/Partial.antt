-- ===== src/UnitTests/Literals/Partial.antt =====
-- `test_hyperlogloglog_partial` of hyperlogloglog/test.cpp.
use hyperlogloglog.Base.{zero, suc, ℕ, ◌+◌, Bool, false, some, none, [], ◌∷◌, ◌&&◌, ◌==◌}
use hyperlogloglog.PackedMap
use hyperlogloglog.HyperLogLogLog.State.{
  HyperLogLogLog, compress_default, when_append, type_increase,
}
use hyperlogloglog.HyperLogLogLog.State as Sketch
use hyperlogloglog.HyperLogLogLog.Update.{add_jr, bit_size}
use hyperlogloglog.UnitTests.Literals.{exceptions_are}

-- `getCompressCount()` and `getRebaseCount()`.
unfoldable pub counts_are : ℕ → ℕ → HyperLogLogLog → Bool
counts_are compressed rebased h = (h.compress_count == compressed) && (h.rebase_count == rebased)

-- The loops of additions, from index `i` on: of index and rank `i`, and of rank `r`.
unfoldable pub add_indices : ℕ → ℕ → HyperLogLogLog → HyperLogLogLog
add_indices zero i h = h
add_indices (suc rounds) i h = add_indices rounds (i + 1) (add_jr h i i)

unfoldable pub add_rank : ℕ → ℕ → ℕ → HyperLogLogLog → HyperLogLogLog
add_rank r zero i h = h
add_rank r (suc rounds) i h = add_rank r rounds (i + 1) (add_jr h i r)

-- The two sketches of the partial test side by side: the default one and the one that compresses
-- on an append.
unfoldable pub partial_run : HyperLogLogLog → HyperLogLogLog → Bool
unfolding counts_are add_indices add_rank exceptions_are
partial_run h₁ h₂ =
    let a₁ = add_indices 8 0 h₁ in
    let a₂ = add_indices 8 0 h₂ in
    let b₁ = add_jr a₁ 1 8 in
    let b₂ = add_jr a₂ 1 8 in
    let c₁ = add_rank 8 8 0 b₁ in
    let c₂ = add_rank 8 8 0 b₂ in
    let d₁ = add_jr c₁ 0 9 in
    let d₂ = add_jr c₂ 0 9 in
    let e₁ = add_jr d₁ 8 9 in
    let e₂ = add_jr d₂ 8 9 in
    let f₁ = add_jr e₁ 9 7 in
    let f₂ = add_jr e₂ 9 7 in
    counts_are 0 0 h₁
    && counts_are 0 0 h₂
    && counts_are 7 0 a₁
    && counts_are 0 0 a₂
    && counts_are 8 0 b₁
    && counts_are 1 0 b₂
    && counts_are 15 0 c₁
    && counts_are 8 0 c₂
    && counts_are 16 0 d₁
    && counts_are 8 0 d₂
    && (PackedMap.size d₁.sparse == 8)
    && exceptions_are 0 ((0, 9) ∷ (1, 8) ∷ (2, 8) ∷ (3, 8) ∷ (4, 8) ∷ (5, 8) ∷ (6, 8) ∷ (7, 8) ∷ [])
        d₁
    && (e₁.base == 8)
    && counts_are 17 1 e₁
    && counts_are 9 1 e₂
    && (f₁.base == 7)
    && counts_are 18 2 f₁
    && (f₂.base == 8)
    && counts_are 9 1 f₂
    && (bit_size f₁ == 108)
    && (bit_size f₂ == 118)

-- The sketch that compresses by increases.
unfoldable pub increase_run : HyperLogLogLog → Bool
unfolding counts_are add_rank
increase_run h₃ =
    let a₃ = add_rank 9 14 2 (add_jr h₃ 1 1) in
    let b₃ = add_jr a₃ 0 8 in
    (h₃.base == 0)
    && counts_are 0 0 h₃
    && (a₃.base == 0)
    && counts_are 15 0 a₃
    && (b₃.base == 1)
    && counts_are 16 1 b₃

unfoldable pub test_hyperlogloglog_partial : Bool
unfolding partial_run increase_run
test_hyperlogloglog_partial = elim (Sketch.new 16 3 compress_default) [
  | none ↦ false
  | some h₁ ↦ elim (Sketch.new 16 3 when_append) [
    | none ↦ false
    | some h₂ ↦ elim (Sketch.new 16 3 type_increase) [
      | none ↦ false
      | some h₃ ↦ partial_run h₁ h₂ && increase_run h₃
    ]
  ]
]
