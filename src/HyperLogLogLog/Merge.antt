-- ===== src/HyperLogLogLog/Merge.antt =====
-- `merge`, which goes through the exceptions of both sketches in the order of their keys. Its
-- three loops share one round. The subtraction of the base is exact, as an offset is read above a
-- base that is no greater. The assertion on `logM` holds with the numbers of registers, from which
-- the constructor sets it. All the exceptions are `none`.
use hyperlogloglog.Base.{
  ℕ, zero, suc, ◌+◌, ◌-◌, Bool, true, false, ◌&&◌, Option, none, some, min, max, ltb, ◌==◌,
  if◌then◌else◌,
}
use hyperlogloglog.PackedVector
use hyperlogloglog.PackedMap
use hyperlogloglog.HyperLogLogLog.State.{HyperLogLogLog, new}
use hyperlogloglog.HyperLogLogLog.Registers.{place}
use hyperlogloglog.HyperLogLogLog.Compress.{compress}
pub mod Filled
pub mod Sides
pub mod Laws
pub mod Joined
pub mod Config
pub mod Streams

-- `M.get(j) + B`.
abbrev pub dense_at : HyperLogLogLog → ℕ → ℕ
dense_at h j = PackedVector.get h.offsets j + h.base

-- The variables of the loops: the next exceptions, the next index, and the result so far.
pub record Cursor : Type 0 where
  pub left : ℕ
  pub right : ℕ
  pub index : ℕ
  pub result : HyperLogLogLog

-- The inner loops `while (j < k)`, where neither sketch has an exception.
unfoldable pub merge_gap : HyperLogLogLog → HyperLogLogLog → ℕ → ℕ → HyperLogLogLog → HyperLogLogLog
merge_gap a b zero j h = h
merge_gap a b (suc rounds) j h = merge_gap a b rounds (j + 1) (record h {
  offsets = PackedVector.set_at h.offsets j (max (dense_at a j) (dense_at b j) - h.base);
})

-- A round of one of the three outer loops, at the least key `k` that is left, with whether it is
-- a key of either sketch.
unfoldable pub merge_round : HyperLogLogLog → HyperLogLogLog → ℕ → Bool → Bool → Cursor → Cursor
merge_round a b k in_left in_right c =
    let h = merge_gap a b (k - c.index) c.index c.result in
    let j = if ltb c.index k then k else c.index in
    let r₁ = if in_left then PackedMap.at a.sparse c.left else dense_at a j in
    let r₂ = if in_right then PackedMap.at b.sparse c.right else dense_at b j in
    record {
      left = if in_left then c.left + 1 else c.left;
      right = if in_right then c.right + 1 else c.right;
      index = j + 1;
      result = place h h.base none j (max r₁ r₂);
    }

-- The loop while both sketches have exceptions left; each round takes one at least.
unfoldable pub merge_both : ℕ → HyperLogLogLog → HyperLogLogLog → Cursor → Cursor
merge_both zero a b c = c
merge_both (suc fuel) a b c =
    let k₁ = PackedMap.key_at a.sparse c.left in
    let k₂ = PackedMap.key_at b.sparse c.right in
    let k = min k₁ k₂ in
    let rest = merge_both fuel a b (merge_round a b k (k₁ == k) (k₂ == k) c) in
    if ltb c.left (PackedMap.size a.sparse) && ltb c.right (PackedMap.size b.sparse)
    then rest
    else c

-- The loops over the exceptions that are left in one sketch.
unfoldable pub merge_left : ℕ → HyperLogLogLog → HyperLogLogLog → Cursor → Cursor
merge_left zero a b c = c
merge_left (suc rounds) a b c =
    merge_left rounds a b (merge_round a b (PackedMap.key_at a.sparse c.left) true false c)

unfoldable pub merge_right : ℕ → HyperLogLogLog → HyperLogLogLog → Cursor → Cursor
merge_right zero a b c = c
merge_right (suc rounds) a b c =
    merge_right rounds a b (merge_round a b (PackedMap.key_at b.sparse c.right) false true c)

-- The loops of `merge`, from the empty sketch `h` on.
unfoldable pub merge_registers : HyperLogLogLog → HyperLogLogLog → HyperLogLogLog → HyperLogLogLog
merge_registers a b h =
    let start : Cursor = record {
      left = 0;
      right = 0;
      index = 0;
      result = record h { base = max a.base b.base };
    } in
    let both = merge_both (PackedMap.size a.sparse + PackedMap.size b.sparse) a b start in
    let left = merge_left (PackedMap.size a.sparse - both.left) a b both in
    let right = merge_right (PackedMap.size b.sparse - left.right) a b left in
    merge_gap a b (a.m - right.index) right.index right.result

unfoldable pub merge : HyperLogLogLog → HyperLogLogLog → Option HyperLogLogLog
merge a b =
    if (a.m == b.m) && (a.m_bits == b.m_bits) && (a.s_bits == b.s_bits) && (a.flags == b.flags)
    then elim (new a.m a.m_bits a.flags) [
      | none ↦ none
      | some h ↦ some (compress (merge_registers a b h))
    ]
    else none
