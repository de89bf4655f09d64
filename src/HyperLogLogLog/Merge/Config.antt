-- ===== src/HyperLogLogLog/Merge/Config.antt =====
-- A merged sketch is set up as the two that it is made of, so that it merges again.
use hyperlogloglog.Base.{
  ℕ, zero, suc, ◌+◌, ◌-◌, ◌≡◌, refl, arith, Bool, true, false, ◌&&◌, none, some, min, max, ltb,
  ◌==◌, Bool-cases, inl, inr,
}
use hyperlogloglog.PackedMap
use hyperlogloglog.HyperLogLogLog.State.{HyperLogLogLog, new}
use hyperlogloglog.HyperLogLogLog.Compress.{compress}
use hyperlogloglog.HyperLogLogLog.Config.{
  SameConfig, SameConfig-trans, place-SameConfig, compress-SameConfig,
}
use hyperlogloglog.HyperLogLogLog.Merge.{
  Cursor, merge_gap, merge_round, merge_both, merge_left, merge_right, merge_registers, merge,
}

module _ (a b : HyperLogLogLog) where
  merge_gap-SameConfig :
      (rounds j : ℕ) (h : HyperLogLogLog) → SameConfig h (merge_gap a b rounds j h)
  unfolding merge_gap
  merge_gap-SameConfig zero j h = record { m_bits = refl; s_bits = refl; flags = refl }
  merge_gap-SameConfig (suc rounds) j h =
      let rest = merge_gap-SameConfig rounds (j + 1) _ in
      record { m_bits = rest.m_bits; s_bits = rest.s_bits; flags = rest.flags }

  merge_round-SameConfig :
      (k : ℕ) (in_left in_right : Bool) (c : Cursor)
      → SameConfig c.result (merge_round a b k in_left in_right c).result
  unfolding merge_round
  merge_round-SameConfig k in_left in_right c =
      SameConfig-trans (merge_gap-SameConfig (k - c.index) c.index c.result)
        (place-SameConfig _ _ none _ _)

  merge_both-SameConfig :
      (fuel : ℕ) (c : Cursor) → SameConfig c.result (merge_both fuel a b c).result
  unfolding merge_both
  merge_both-SameConfig zero c = record { m_bits = refl; s_bits = refl; flags = refl }
  merge_both-SameConfig (suc fuel) c =
      let k₁ = PackedMap.key_at a.sparse c.left in
      let k₂ = PackedMap.key_at b.sparse c.right in
      let next =
        SameConfig-trans (merge_round-SameConfig (min k₁ k₂) (k₁ == min k₁ k₂) (k₂ == min k₁ k₂) c)
          (merge_both-SameConfig fuel _) in
      elim (Bool-cases
        (ltb c.left (PackedMap.size a.sparse) && ltb c.right (PackedMap.size b.sparse))) [
          | inl e ↦ rw e next
          | inr e ↦ rw e (record { m_bits = refl; s_bits = refl; flags = refl })
        ]

  merge_left-SameConfig :
      (rounds : ℕ) (c : Cursor) → SameConfig c.result (merge_left rounds a b c).result
  unfolding merge_left
  merge_left-SameConfig zero c = record { m_bits = refl; s_bits = refl; flags = refl }
  merge_left-SameConfig (suc rounds) c =
      SameConfig-trans (merge_round-SameConfig _ true false c) (merge_left-SameConfig rounds _)

  merge_right-SameConfig :
      (rounds : ℕ) (c : Cursor) → SameConfig c.result (merge_right rounds a b c).result
  unfolding merge_right
  merge_right-SameConfig zero c = record { m_bits = refl; s_bits = refl; flags = refl }
  merge_right-SameConfig (suc rounds) c =
      SameConfig-trans (merge_round-SameConfig _ false true c) (merge_right-SameConfig rounds _)

  pub merge_registers-SameConfig : (h : HyperLogLogLog) → SameConfig h (merge_registers a b h)
  unfolding merge_registers
  merge_registers-SameConfig h =
      let start : Cursor = record {
        left = 0;
        right = 0;
        index = 0;
        result = record h { base = max a.base b.base };
      } in
      let both = merge_both (PackedMap.size a.sparse + PackedMap.size b.sparse) a b start in
      let left = merge_left (PackedMap.size a.sparse - both.left) a b both in
      let all =
        SameConfig-trans
          (merge_both-SameConfig (PackedMap.size a.sparse + PackedMap.size b.sparse) start)
          (SameConfig-trans (merge_left-SameConfig (PackedMap.size a.sparse - both.left) both) (
            SameConfig-trans (merge_right-SameConfig (PackedMap.size b.sparse - left.right) left)
              (merge_gap-SameConfig _ _ _))) in
      record { m_bits = all.m_bits; s_bits = all.s_bits; flags = all.flags }

-- With the sketch that the constructor makes anew.
pub merge-SameConfig :
    (a b : HyperLogLogLog) {h h' : HyperLogLogLog}
    → new a.m a.m_bits a.flags ≡ some h
    → merge a b ≡ some h'
    → SameConfig h h'
unfolding merge
merge-SameConfig a b {h} {h'} made e =
    let made_of : compress (merge_registers a b h) ≡ h' = ground (arith, made, e) in
    rw (← made_of) (
      SameConfig-trans (merge_registers-SameConfig a b h)
        (compress-SameConfig (merge_registers a b h)))
