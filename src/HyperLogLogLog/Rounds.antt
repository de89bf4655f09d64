-- ===== src/HyperLogLogLog/Rounds.antt =====
-- What a round of the search of `compressFull` counts.
use hyperlogloglog.Base.{ℕ, suc, ◌+◌, ◌^◌, ◌≤◌, ◌<◌, ◌≡◌, refl, ap, arith, ltb, ◌==◌, ◌||◌}
use hyperlogloglog.HyperLogLogLog.State.{HyperLogLogLog}
use hyperlogloglog.HyperLogLogLog.Registers.{get, iterate}
use hyperlogloglog.HyperLogLogLog.Compress.{Count, count_base}
use hyperlogloglog.HyperLogLogLog.Rebase.{IsValid}
use hyperlogloglog.HyperLogLogLog.Iterate.{iterate-over, over_inv}
use hyperlogloglog.HyperLogLogLog.Counts.{count, count_mono, count_split}

-- The registers that are no offset from `base`, those below it, and those that are it.
abbrev pub exceptions_at : HyperLogLogLog → ℕ → ℕ
exceptions_at h base = count (λ i. ltb (get h i) base || ltb (base + h.max_offset) (get h i)) h.m

abbrev pub below : HyperLogLogLog → ℕ → ℕ
below h base = count (λ i. ltb (get h i) base) h.m

abbrev pub equal : HyperLogLogLog → ℕ → ℕ
equal h base = count (λ i. get h i == base) h.m

-- One round of the loop has counted, and has found the next register.
pub record IsCounted (h : HyperLogLogLog) (potential below : ℕ) (c : Count) (k : ℕ) : Type 0 where
  pub ns : c.ns ≡ count (λ i. ltb (get h i) potential || ltb (potential + h.max_offset) (get h i)) k
  pub total : c.below ≡ below + count (λ i. get h i == potential) k
  pub above : potential < c.next
  pub top : c.next ≤ 64
  pub next : (j : ℕ) → j < k → potential < get h j → c.next ≤ get h j

module _ {h : HyperLogLogLog} (valid : IsValid h) where
  count_base-IsCounted :
      (potential below k : ℕ) (c : Count)
      → k < h.m
      → IsCounted h potential below c k
      → IsCounted h potential below (count_base h potential k (get h k) c) (k + 1)
  unfolding count_base
  count_base-IsCounted potential below k c hk old =
      let next : k + 1 ≡ suc k = omega arith in
      rw next (record {
        ns = unfold count in ground (arith, old.ns);
        total = unfold count in ground (arith, old.total);
        above = ground (arith, old.above);
        top = ground (arith, old.top, valid.ranks k hk);
        next = λ j p up. ground (arith, old.next j, valid.ranks k hk, ap (get h) {x = j} {y = k});
      })

  abbrev pub counted : ℕ → ℕ → Count
  counted potential below =
      iterate (count_base h potential) h (record { ns = 0; below = below; next = 2 ^ h.s_bits })

  pub counted-IsCounted :
      (potential below : ℕ)
      → potential < 64
      → IsCounted h potential below (counted potential below) h.m
  counted-IsCounted potential below p =
      let top : 2 ^ h.s_bits ≡ 64 = ap (λ (e : ℕ). 2 ^ e) valid.shape.s_bits in
      let start : Count = record { ns = 0; below = below; next = 2 ^ h.s_bits } in
      rw (iterate-over (count_base h potential) valid.shape start) (
        over_inv (λ k (c : Count). IsCounted h potential below c k) (count_base h potential) (get h)
          h.m 0 h.m start (omega arith)
          (λ k c hk old. count_base-IsCounted potential below k c hk old)
          (record {
            ns = unfold count in refl;
            total = unfold count in omega arith;
            above = omega (arith, top);
            top = omega (arith, top);
            next = λ j q up. absurd (omega arith);
          }))

  -- No base from a potential one on has fewer exceptions than there are registers below that.
  pub below-le : (p q : ℕ) → p ≤ q → below h p ≤ exceptions_at h q
  below-le p q le = count_mono _ _ h.m (λ i hi small. ground (arith, small, le))

  -- The registers below the next potential base.
  pub below-next :
      (p : ℕ) (c : Count) (n : ℕ) → IsCounted h p n c h.m → below h c.next ≡ below h p + equal h p
  below-next p c n done = count_split _ _ _ h.m (λ i hi. ground (arith, done.above, done.next i hi))
