-- ===== src/UnitTests/Literals.antt =====
-- The tests of hyperlogloglog/test.cpp that compare with literals.
pub mod Default
pub mod Partial
use hyperlogloglog.Base.{
  zero, suc, ℕ, ◌+◌, Bool, true, false, some, none, replicate, List, [], ◌∷◌, length, ◌&&◌, ◌==◌,
}
use hyperlogloglog.UnitTests.{is_minimum}
use hyperlogloglog.PackedMap
use hyperlogloglog.HyperLogLogLog.State.{
  HyperLogLogLog, compress_default, when_append, type_increase,
}
use hyperlogloglog.HyperLogLogLog.State as Sketch
use hyperlogloglog.HyperLogLogLog.Update.{add_jr, bit_size}
use hyperlogloglog.HyperLogLogLog.Optimum.{minimum_bits}
use hyperlogloglog.PackedVector.{
  PackedVector, new, get, set_at, read_field, write_field, append, grow, insert, shift_right, erase,
  shift_left,
}

-- The size, then the elements from `i` on.
unfoldable pub reads : ℕ → List ℕ → PackedVector → Bool
reads i [] v = true
reads i (x ∷ xs) v = let rest = reads (i + 1) xs v in (get v i == x) && rest

unfoldable pub holds : List ℕ → PackedVector → Bool
unfolding reads
holds xs v = (v.size == length xs) && reads 0 xs v

unfoldable pub test_packed_vector3 : Bool
unfolding holds new get set_at read_field write_field append grow insert shift_right erase
    shift_left
test_packed_vector3 =
    let v₀ = new 8 0 in
    let v₁ = insert v₀ 0 18 in
    let v₂ = insert v₁ 0 52 in
    let v₃ = insert v₂ 0 86 in
    let v₄ = insert v₃ 2 120 in
    let v₅ = erase v₄ 2 in
    let v₆ = erase v₅ 2 in
    let v₇ = erase v₆ 0 in
    let v₈ = erase v₇ 0 in
    (v₀.size == 0)
    && holds (18 ∷ []) v₁
    && holds (52 ∷ 18 ∷ []) v₂
    && holds (86 ∷ 52 ∷ 18 ∷ []) v₃
    && holds (86 ∷ 52 ∷ 120 ∷ 18 ∷ []) v₄
    && holds (86 ∷ 52 ∷ 18 ∷ []) v₅
    && holds (86 ∷ 52 ∷ []) v₆
    && holds (52 ∷ []) v₇
    && holds [] v₈

unfoldable pub test_minimum_bits : Bool
unfolding is_minimum minimum_bits
test_minimum_bits =
    is_minimum
      (minimum_bits (8 ∷ 4 ∷ 2 ∷ 1 ∷ 4 ∷ 2 ∷ 5 ∷ 3 ∷ 5 ∷ 4 ∷ 6 ∷ 2 ∷ 5 ∷ 4 ∷ 3 ∷ 4 ∷ []) 3 6) 48
    && is_minimum
        (minimum_bits
          (7 ∷ 4 ∷ 9 ∷ 5 ∷ 10 ∷ 8 ∷ 6 ∷ 3 ∷ 6 ∷ 9 ∷ 4 ∷ 6 ∷ 6 ∷ 5 ∷ 6 ∷ 6 ∷ 9 ∷ 4 ∷ 7 ∷ 5 ∷ 6 ∷ 7
            ∷ 7 ∷ 6 ∷ 7 ∷ 5 ∷ 5 ∷ 8 ∷ 7 ∷ 6 ∷ 6 ∷ 5 ∷ [])
          3 6)
        96
    && is_minimum
        (minimum_bits
          (12 ∷ 10 ∷ 9 ∷ 9 ∷ 8 ∷ 8 ∷ 8 ∷ 11 ∷ 9 ∷ 8 ∷ 9 ∷ 6 ∷ 9 ∷ 9 ∷ 7 ∷ 9 ∷ 9 ∷ 9 ∷ 9 ∷ 9 ∷ 8 ∷ 6
            ∷ 11 ∷ 9 ∷ 10 ∷ 9 ∷ 9 ∷ 13 ∷ 10 ∷ 13 ∷ 8 ∷ 10 ∷ 7 ∷ 7 ∷ 6 ∷ 7 ∷ 11 ∷ 9 ∷ 7 ∷ 13 ∷ 9 ∷ 8
            ∷ 8 ∷ 6 ∷ 9 ∷ 8 ∷ 8 ∷ 10 ∷ 6 ∷ 9 ∷ 8 ∷ 9 ∷ 9 ∷ 9 ∷ 8 ∷ 9 ∷ 9 ∷ 9 ∷ 9 ∷ 9 ∷ 7 ∷ 6 ∷ 7
            ∷ 12 ∷ [])
          3 6)
        192
    && is_minimum
        (minimum_bits
          (11 ∷ 10 ∷ 13 ∷ 8 ∷ 11 ∷ 12 ∷ 11 ∷ 9 ∷ 11 ∷ 10 ∷ 10 ∷ 12 ∷ 11 ∷ 11 ∷ 10 ∷ 17 ∷ 8 ∷ 12 ∷ 11
            ∷ 11 ∷ 11 ∷ 12 ∷ 9 ∷ 10 ∷ 10 ∷ 13 ∷ 9 ∷ 12 ∷ 13 ∷ 10 ∷ 9 ∷ 9 ∷ 12 ∷ 9 ∷ 16 ∷ 13 ∷ 10 ∷ 9
            ∷ 11 ∷ 10 ∷ 11 ∷ 11 ∷ 12 ∷ 10 ∷ 9 ∷ 16 ∷ 10 ∷ 10 ∷ 10 ∷ 10 ∷ 9 ∷ 13 ∷ 12 ∷ 12 ∷ 11 ∷ 9
            ∷ 10 ∷ 12 ∷ 8 ∷ 12 ∷ 11 ∷ 9 ∷ 12 ∷ 14 ∷ 15 ∷ 10 ∷ 9 ∷ 9 ∷ 11 ∷ 14 ∷ 10 ∷ 13 ∷ 12 ∷ 12
            ∷ 9 ∷ 10 ∷ 11 ∷ 10 ∷ 10 ∷ 15 ∷ 11 ∷ 10 ∷ 7 ∷ 11 ∷ 13 ∷ 13 ∷ 12 ∷ 8 ∷ 11 ∷ 11 ∷ 11 ∷ 12
            ∷ 11 ∷ 10 ∷ 12 ∷ 13 ∷ 10 ∷ 12 ∷ 12 ∷ 10 ∷ 11 ∷ 13 ∷ 13 ∷ 12 ∷ 13 ∷ 10 ∷ 12 ∷ 7 ∷ 10 ∷ 10
            ∷ 11 ∷ 11 ∷ 11 ∷ 12 ∷ 11 ∷ 11 ∷ 11 ∷ 11 ∷ 10 ∷ 9 ∷ 10 ∷ 10 ∷ 9 ∷ 13 ∷ 11 ∷ 11 ∷ 11 ∷ 10
            ∷ [])
          3 6)
        449

-- The exceptions from `i` on.
unfoldable pub exceptions_are : ℕ → List (ℕ × ℕ) → HyperLogLogLog → Bool
exceptions_are i [] h = true
exceptions_are i ((j, r) ∷ es) h =
    let rest = exceptions_are (i + 1) es h in
    (PackedMap.key_at h.sparse i == j) && (PackedMap.at h.sparse i == r) && rest
