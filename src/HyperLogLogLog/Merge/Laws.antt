-- ===== src/HyperLogLogLog/Merge/Laws.antt =====
-- `merge` of two valid sketches has the greater of each two registers.
use hyperlogloglog.Base.{
  ℕ, zero, suc, ◌+◌, ◌-◌, ◌≤◌, ◌<◌, ◌≡◌, refl, arith, Bool, true, false, ◌&&◌, min, max, ltb, ◌==◌,
  if◌then◌else◌, Bool-cases, inl, inr, ◌⊎◌,
}
use hyperlogloglog.PackedMap
use hyperlogloglog.HyperLogLogLog.State.{HyperLogLogLog}
use hyperlogloglog.HyperLogLogLog.Registers.{get}
use hyperlogloglog.HyperLogLogLog.Merge.{
  Cursor, merge_gap, merge_round, merge_both, merge_left, merge_right, merge_registers,
}
use hyperlogloglog.HyperLogLogLog.Rebase.{IsValid}
use hyperlogloglog.HyperLogLogLog.Merge.Filled.{IsFilled, place-IsFilled, merge_gap-IsFilled}
use hyperlogloglog.HyperLogLogLog.Merge.Sides.{
  IsAt, IsNext, get-gap, get-next, IsAt-next, key_at-lt_m, IsNext-min, IsNext-true, IsNext-end,
}

-- The loops have merged the registers below the index, and stand there in both sketches.
record IsReady (a b : HyperLogLogLog) (c : Cursor) : Type 0 where
  filled : IsFilled a b c.index c.result
  left : IsAt a c.left c.index
  right : IsAt b c.right c.index
  index : c.index ≤ a.m

module _ {a b : HyperLogLogLog} (va : IsValid a) (vb : IsValid b) (same : b.m ≡ a.m)
    (offsets : a.max_offset ≡ b.max_offset) where
  merge_round-IsReady :
      (k : ℕ) (in_left in_right : Bool) {c : Cursor}
      → IsReady a b c
      → c.index ≤ k
      → k < a.m
      → IsNext a c.left k in_left
      → IsNext b c.right k in_right
      → IsReady a b (merge_round a b k in_left in_right c)
  unfolding merge_round
  merge_round-IsReady k in_left in_right {c} ready le hk next₁ next₂ =
      let stays : (if ltb c.index k then k else c.index) ≡ k = ground arith in
      let there : c.index + (k - c.index) ≡ k = omega arith in
      let gap : IsFilled a b k (merge_gap a b (k - c.index) c.index c.result) = rw there at (
        merge_gap-IsFilled va vb same (k - c.index) c.index offsets ready.filled (omega arith)
          (λ q p s. get-gap va.shape c.left c.index k in_left ready.left next₁ le q p (omega arith))
          (λ q p s.
            get-gap vb.shape c.right c.index k in_right ready.right next₂ le q p (omega arith))) in
      let r₁ = get-next va.shape c.left c.index k in_left ready.left next₁ le in
      let r₂ = get-next vb.shape c.right c.index k in_right ready.right next₂ le in
      rw stays (record {
        filled =
            rw (← r₁, ← r₂) (place-IsFilled va vb same k (max (get a k) (get b k)) gap hk refl);
        left = IsAt-next va.shape c.left c.index k in_left ready.left next₁ le;
        right = IsAt-next vb.shape c.right c.index k in_right ready.right next₂ le;
        index = omega arith;
      })

  -- The first loop ends with no exception left in one of the sketches.
  merge_both-IsReady :
      (fuel : ℕ) {c : Cursor}
      → IsReady a b c
      → (PackedMap.size a.sparse - c.left) + (PackedMap.size b.sparse - c.right) ≤ fuel
      → IsReady a b (merge_both fuel a b c)
        × ((PackedMap.size a.sparse ≤ (merge_both fuel a b c).left)
            ⊎ (PackedMap.size b.sparse ≤ (merge_both fuel a b c).right))
  unfolding merge_both merge_round
  merge_both-IsReady zero {c} ready enough = (ready, inl (omega arith))
  merge_both-IsReady (suc fuel) {c} ready enough =
      elim (Bool-cases
        (ltb c.left (PackedMap.size a.sparse) && ltb c.right (PackedMap.size b.sparse))) [
          | inr e ↦ rw e (ready, ground (arith, e))
          | inl e ↦
              let k₁ = PackedMap.key_at a.sparse c.left in
              let k₂ = PackedMap.key_at b.sparse c.right in
              let p : c.left < PackedMap.size a.sparse = ground (arith, e) in
              let q : c.right < PackedMap.size b.sparse = ground (arith, e) in
              let next =
                merge_round-IsReady (min k₁ k₂) (k₁ == min k₁ k₂) (k₂ == min k₁ k₂) ready
                  (omega (arith, ready.left.after c.left, ready.right.after c.right))
                  (omega (arith, key_at-lt_m c.left va.shape p))
                  (IsNext-min c.left (min k₁ k₂) va.shape p (omega arith))
                  (IsNext-min c.right (min k₁ k₂) vb.shape q (omega arith)) in
              rw e (merge_both-IsReady fuel next (ground arith))
        ]

  merge_left-IsReady :
      (rounds : ℕ) {c : Cursor}
      → IsReady a b c
      → rounds ≡ PackedMap.size a.sparse - c.left
      → (PackedMap.size a.sparse ≤ c.left) ⊎ (PackedMap.size b.sparse ≤ c.right)
      → IsReady a b (merge_left rounds a b c)
        × (PackedMap.size a.sparse ≤ (merge_left rounds a b c).left)
  unfolding merge_left merge_round
  merge_left-IsReady zero {c} ready e over = (ready, omega arith)
  merge_left-IsReady (suc rounds) {c} ready e over =
      let p : c.left < PackedMap.size a.sparse = omega arith in
      let next =
        merge_round-IsReady (PackedMap.key_at a.sparse c.left) true false ready
          (ready.left.after c.left (omega arith) p) (key_at-lt_m c.left va.shape p)
          (IsNext-true c.left p) (IsNext-end c.right _ (ground arith)) in
      merge_left-IsReady rounds next (omega arith) (ground arith)

  merge_right-IsReady :
      (rounds : ℕ) {c : Cursor}
      → IsReady a b c
      → rounds ≡ PackedMap.size b.sparse - c.right
      → PackedMap.size a.sparse ≤ c.left
      → IsReady a b (merge_right rounds a b c)
        × (PackedMap.size a.sparse ≤ (merge_right rounds a b c).left)
        × (PackedMap.size b.sparse ≤ (merge_right rounds a b c).right)
  unfolding merge_right merge_round
  merge_right-IsReady zero {c} ready e over = (ready, over, omega arith)
  merge_right-IsReady (suc rounds) {c} ready e over =
      let p : c.right < PackedMap.size b.sparse = omega arith in
      let next =
        merge_round-IsReady (PackedMap.key_at b.sparse c.right) false true ready
          (ready.right.after c.right (omega arith) p)
          (omega (arith, key_at-lt_m c.right vb.shape p)) (IsNext-end c.left _ over)
          (IsNext-true c.right p) in
      merge_right-IsReady rounds next (omega arith) over

  -- The loops from an empty result write every register.
  pub merge_registers-IsFilled :
      (h : HyperLogLogLog)
      → IsFilled a b 0 (record h { base = max a.base b.base })
      → IsFilled a b a.m (merge_registers a b h)
  unfolding merge_registers
  merge_registers-IsFilled h empty =
      let start : Cursor = record {
        left = 0;
        right = 0;
        index = 0;
        result = record h { base = max a.base b.base };
      } in
      let ready : IsReady a b start = record {
        filled = empty;
        left = record { before = λ n p. absurd (omega arith); after = λ n p q. omega arith };
        right = record { before = λ n p. absurd (omega arith); after = λ n p q. omega arith };
        index = omega arith;
      } in
      let (both, over) =
        merge_both-IsReady (PackedMap.size a.sparse + PackedMap.size b.sparse) ready
          (omega arith) in
      let (left, past) = merge_left-IsReady _ both refl over in
      let (right, past₁, past₂) = merge_right-IsReady _ left refl past in finish right past₁ past₂
    where
      finish :
          {c : Cursor}
          → IsReady a b c
          → PackedMap.size a.sparse ≤ c.left
          → PackedMap.size b.sparse ≤ c.right
          → IsFilled a b a.m (merge_gap a b (a.m - c.index) c.index c.result)
      finish {c} ready p q =
          let index : c.index ≤ a.m = ready.index in
          let there : c.index + (a.m - c.index) ≡ a.m = omega arith in
          rw there at (
            merge_gap-IsFilled va vb same (a.m - c.index) c.index offsets ready.filled (omega arith)
              (λ i r s.
                get-gap va.shape c.left c.index a.m false ready.left (IsNext-end c.left a.m p) index
                  i r (omega arith))
              (λ i r s.
                get-gap vb.shape c.right c.index a.m false ready.right (IsNext-end c.right a.m q)
                  index i r (omega arith)))
