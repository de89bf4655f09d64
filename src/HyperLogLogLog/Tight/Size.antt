-- ===== src/HyperLogLogLog/Tight/Size.antt =====
-- How many pairs a packed map has, and how many exceptions a tight sketch stores.
use hyperlogloglog.Base.{ℕ, zero, suc, ◌+◌, ◌≤◌, ◌<◌, ◌≡◌, ◌^◌, ap, ◌∙◌, arith, if◌then◌else◌}
use hyperlogloglog.PackedMap.{PackedMap, size, key_at}
use hyperlogloglog.PackedMap.Entries
use hyperlogloglog.PackedMap.Lookup.{lookup, key_at-lt, present, missing, Lookup-cases}
use hyperlogloglog.HyperLogLogLog.State.{HyperLogLogLog}
use hyperlogloglog.HyperLogLogLog.Counts.{count, count_ext}
use hyperlogloglog.HyperLogLogLog.Shape.{HasShape, is_some}
use hyperlogloglog.HyperLogLogLog.Rounds.{exceptions_at}
use hyperlogloglog.HyperLogLogLog.Tight.{IsTight}

-- The first `c` keys are those below `k`.
record IsCut (m : PackedMap) (k c : ℕ) : Type 0 where
  within : c ≤ size m
  before : (i : ℕ) → i < c → key_at m i < k
  after : (i : ℕ) → c ≤ i → i < size m → k ≤ key_at m i

module _ {limit : ℕ} {m : PackedMap} (valid : Entries.IsValid limit m) where
  IsCut-suc :
      (k c : ℕ) → IsCut m k c → IsCut m (suc k) (c + (if is_some (lookup m k) then 1 else 0))
  IsCut-suc k c cut = elim (Lookup-cases m k valid.sorted) [
    | present i p e _ r ↦ rw r (
        let here : i ≡ c = ground (arith, cut.before i, cut.after c, valid.sorted c i) in
        record {
          within = omega arith;
          before = λ n q. ground (arith, cut.before n, ap (key_at m) {x = n} {y = i});
          after = λ n q s. ground (arith, valid.sorted i n);
        })
    | missing absent _ r ↦ rw r (record {
      within = omega (arith, cut.within);
      before = λ n q. omega (arith, cut.before n (omega arith));
      after = λ n q s. ground (arith, cut.after n, absent n);
    })
  ]

  count-IsCut : (k : ℕ) → IsCut m k (count (λ q. is_some (lookup m q)) k)
  unfolding count
  count-IsCut zero = record {
    within = omega arith;
    before = λ i p. absurd (omega arith);
    after = λ i p q. omega arith;
  }
  count-IsCut (suc k) = IsCut-suc k _ (count-IsCut k)

  -- A valid map has as many pairs as keys that are found.
  pub size-count : size m ≡ count (λ q. is_some (lookup m q)) (2 ^ m.key_size)
  size-count =
      let cut = count-IsCut (2 ^ m.key_size) in
      let c = count (λ q. is_some (lookup m q)) (2 ^ m.key_size) in
      ground (arith, cut.within, cut.after c, key_at-lt valid c)

-- A tight sketch stores as many pairs as there are exceptions from its base.
pub size-exceptions_at :
    {h : HyperLogLogLog} → HasShape h → IsTight h → size h.sparse ≡ exceptions_at h h.base
size-exceptions_at {h} shape tight =
    size-count shape.map
    ∙ ap (count (λ q. is_some (lookup h.sparse q)))
        (omega (arith, ap (λ (k : ℕ). 2 ^ k) shape.key_size, shape.power))
    ∙ count_ext _ _ h.m tight.stored
