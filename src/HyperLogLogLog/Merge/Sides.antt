-- ===== src/HyperLogLogLog/Merge/Sides.antt =====
-- Where a loop of `merge` stands in the exceptions of one of its sketches.
use hyperlogloglog.Base.{
  ℕ, ◌+◌, ◌^◌, ◌==◌, ◌≤◌, ◌<◌, ◌≡◌, ◌≢◌, refl, ap, arith, Bool, true, false, if◌then◌else◌,
  Bool-cases, inl, inr,
}
use hyperlogloglog.PackedMap
use hyperlogloglog.PackedMap.Lookup.{key_at-lt}
use hyperlogloglog.HyperLogLogLog.State.{HyperLogLogLog}
use hyperlogloglog.HyperLogLogLog.Registers.{get}
use hyperlogloglog.HyperLogLogLog.Merge.{dense_at}
use hyperlogloglog.HyperLogLogLog.Shape.{HasShape}
use hyperlogloglog.HyperLogLogLog.Iterate.{get-dense, get-sparse}

-- The exceptions before the `i`-th have keys below `j`, the others from `j` on.
pub record IsAt (h : HyperLogLogLog) (i j : ℕ) : Type 0 where
  pub before : (n : ℕ) → n < i → n < PackedMap.size h.sparse → PackedMap.key_at h.sparse n < j
  pub after : (n : ℕ) → i ≤ n → n < PackedMap.size h.sparse → j ≤ PackedMap.key_at h.sparse n

-- `hit` says whether the `i`-th exception has the key `k`; if not, the exceptions from it on have
-- greater keys.
pub record IsNext (h : HyperLogLogLog) (i k : ℕ) (hit : Bool) : Type 0 where
  pub here : hit ≡ true → (i < PackedMap.size h.sparse) × (PackedMap.key_at h.sparse i ≡ k)
  pub beyond :
      hit ≡ false → (n : ℕ) → i ≤ n → n < PackedMap.size h.sparse → k < PackedMap.key_at h.sparse n

module _ {h : HyperLogLogLog} (shape : HasShape h) (i j k : ℕ) (hit : Bool) (at_j : IsAt h i j)
    (next : IsNext h i k hit) (le : j ≤ k) where
  key-le : (n : ℕ) → i ≤ n → n < PackedMap.size h.sparse → k ≤ PackedMap.key_at h.sparse n
  key-le n p q = elim (Bool-cases hit) [
    | inl e ↦
        ground
          (arith, next.here e, shape.map.sorted i n, ap (PackedMap.key_at h.sparse) {x = i} {y = n})
    | inr e ↦ omega (arith, next.beyond e n p q)
  ]

  -- Between `j` and `k` there is no exception.
  pub get-gap : (q : ℕ) → j ≤ q → q < k → get h q ≡ dense_at h q
  get-gap q p s = get-dense shape q absent
    where
      absent : (n : ℕ) → n < PackedMap.size h.sparse → PackedMap.key_at h.sparse n ≢ q
      absent n r = ground (arith, at_j.before n, key-le n)

  -- The register at `k` is read from the exception that is hit, or from the offsets.
  pub get-next : get h k ≡ (if hit then PackedMap.at h.sparse i else dense_at h k)
  get-next = elim (Bool-cases hit) [
    | inl e ↦ rw e (
        ground (
          arith,
          next.here e,
          get-sparse shape i,
          ap (get h) {x = PackedMap.key_at h.sparse i} {y = k},
        ))
    | inr e ↦ rw e (get-dense shape k (absent e))
  ]
    where
      absent : hit ≡ false → (n : ℕ) → n < PackedMap.size h.sparse → PackedMap.key_at h.sparse n ≢ k
      absent e n r = ground (arith, at_j.before n, next.beyond e n)

  pub IsAt-next : IsAt h (if hit then i + 1 else i) (k + 1)
  IsAt-next = elim (Bool-cases hit) [
    | inl e ↦ rw e (record {
      before = λ n p r.
          ground
            (arith, at_j.before n, next.here e, ap (PackedMap.key_at h.sparse) {x = n} {y = i});
      after = λ n p r. ground (arith, next.here e, shape.map.sorted i n);
    })
    | inr e ↦ rw e (record {
      before = λ n p r. omega (arith, at_j.before n p r);
      after = λ n p r. omega (arith, next.beyond e n p r);
    })
  ]

pub key_at-lt_m :
    {h : HyperLogLogLog} (n : ℕ)
    → HasShape h
    → n < PackedMap.size h.sparse
    → PackedMap.key_at h.sparse n < h.m
key_at-lt_m n shape p =
    omega (arith, key_at-lt shape.map n p, ap (λ (e : ℕ). 2 ^ e) shape.key_size, shape.power)

-- A key that is no greater than the next one is hit exactly if it is the next one.
pub IsNext-min :
    {h : HyperLogLogLog} (i k : ℕ)
    → HasShape h
    → i < PackedMap.size h.sparse
    → k ≤ PackedMap.key_at h.sparse i
    → IsNext h i k (PackedMap.key_at h.sparse i == k)
IsNext-min {h} i k shape p le = record {
  here = λ e. ground (arith, e);
  beyond = λ e n q r.
      ground (arith, e, shape.map.sorted i n, ap (PackedMap.key_at h.sparse) {x = i} {y = n});
}

pub IsNext-true :
    {h : HyperLogLogLog} (i : ℕ)
    → i < PackedMap.size h.sparse
    → IsNext h i (PackedMap.key_at h.sparse i) true
IsNext-true i p = record { here = λ e. (p, refl); beyond = λ e. absurd (ground (arith, e)) }

-- No exception is left.
pub IsNext-end : {h : HyperLogLogLog} (i k : ℕ) → PackedMap.size h.sparse ≤ i → IsNext h i k false
IsNext-end i k p = record {
  here = λ e. absurd (ground (arith, e));
  beyond = λ e n q r. absurd (omega arith);
}
