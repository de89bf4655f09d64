-- ===== src/HyperLogLogLog/Search.antt =====
-- The loop of `compressFull` over the potential bases ends within its fuel.
use hyperlogloglog.Base.{
  ℕ, zero, suc, ◌+◌, ◌^◌, ◌≤◌, ◌<◌, ◌≡◌, ap, arith, ltb, ◌&&◌, true, false, ◌⊎◌, if◌then◌else◌,
}
use native.Mathlib.Decide.{dec_lt}
use hyperlogloglog.HyperLogLogLog.State.{HyperLogLogLog}
use hyperlogloglog.HyperLogLogLog.Registers.{get, iterate}
use hyperlogloglog.HyperLogLogLog.Compress.{Count, count_base, search_base}
use hyperlogloglog.HyperLogLogLog.Shape.{HasShape}
use hyperlogloglog.HyperLogLogLog.Iterate.{over_inv, iterate-over}

-- The next potential base is above this one, and at most 64.
abbrev IsAbove : ℕ → Count → Type 0
IsAbove potential c = (potential < c.next) × (c.next ≤ 64)

count_base-IsAbove :
    (h : HyperLogLogLog) (potential j r : ℕ) (c : Count)
    → IsAbove potential c
    → IsAbove potential (count_base h potential j r c)
unfolding count_base
count_base-IsAbove h potential j r c above = ground arith

-- What a round counts.
abbrev pub counts : HyperLogLogLog → ℕ → ℕ → Count
counts h potential below =
    iterate (count_base h potential) h (record { ns = 0; below = below; next = 2 ^ h.s_bits })

-- The runs of the loop of `compressFull` over the potential bases, from the values of its
-- variables to the best base: the loop ends when its condition does not hold, and else has a
-- round and goes on.
pub data Ends (h : HyperLogLogLog) : ℕ → ℕ → ℕ → ℕ → ℕ → Type 0 where
  ended :
      {potential below best_ns best : ℕ}
      → (best_ns ≤ below) ⊎ (2 ^ h.s_bits ≤ potential)
      → Ends h potential below best_ns best best
  another :
      {potential below best_ns best result : ℕ}
      → below < best_ns
      → potential < 2 ^ h.s_bits
      → Ends h
          (counts h potential below).next
          (counts h potential below).below
          (if ltb (counts h potential below).ns best_ns
            then (counts h potential below).ns
            else best_ns)
          (if ltb (counts h potential below).ns best_ns then potential else best)
          result
      → Ends h potential below best_ns best result

module _ {h : HyperLogLogLog} (shape : HasShape h) where
  top : 2 ^ h.s_bits ≡ 64
  top = ap (λ (e : ℕ). 2 ^ e) shape.s_bits

  abbrev counted : ℕ → ℕ → Count
  counted potential below =
      iterate (count_base h potential) h (record { ns = 0; below = below; next = 2 ^ h.s_bits })

  counted-IsAbove :
      (potential below : ℕ) → potential < 64 → IsAbove potential (counted potential below)
  counted-IsAbove potential below p =
      rw
        (iterate-over (count_base h potential) shape
          (record { ns = 0; below = below; next = 2 ^ h.s_bits }))
        (over_inv (λ k c. IsAbove potential c) (count_base h potential) (get h) h.m 0 h.m
          (record { ns = 0; below = below; next = 2 ^ h.s_bits }) (omega arith)
          (λ k c hk above. count_base-IsAbove h potential k (get h k) c above)
          (omega (arith, top), omega (arith, top)))

  -- In a sketch of the right shape, with fuel that reaches 64 from the potential base, the
  -- result of `search_base` is that of a finite run of the loop of `compressFull`, round after
  -- round while its condition holds and to the end where it does not. The loop thus ends, and
  -- 65 rounds are enough from any base.
  pub search_base-Ends :
      (n potential below best_ns best : ℕ)
      → 64 ≤ n + potential
      → Ends h potential below best_ns best (search_base n h potential below best_ns best)
  unfolding search_base
  search_base-Ends zero potential below best_ns best p = ended (omega (arith, top))
  search_base-Ends (suc n) potential below best_ns best p = elim (dec_lt below best_ns) [
    | no stopped ↦
        let done : (ltb below best_ns && ltb potential (2 ^ h.s_bits)) ≡ false = ground arith in
        rw done (ended (omega (arith, stopped)))
    | yes fewer ↦ elim (dec_lt potential (2 ^ h.s_bits)) [
      | no at_top ↦
          let done : (ltb below best_ns && ltb potential (2 ^ h.s_bits)) ≡ false = ground arith in
          rw done (ended (omega (arith, at_top)))
      | yes low ↦
          let more : (ltb below best_ns && ltb potential (2 ^ h.s_bits)) ≡ true = ground arith in
          let c = counted potential below in
          let above = counted-IsAbove potential below (omega (arith, low, top)) in
          let better = ltb c.ns best_ns in
          rw more (
            another fewer low (
              search_base-Ends n c.next c.below (if better then c.ns else best_ns)
                (if better then potential else best) (omega (arith, above))))
    ]
  ]
