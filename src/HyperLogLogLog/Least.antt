-- ===== src/HyperLogLogLog/Least.antt =====
-- `compressFull` finds a base with the fewest exceptions.
use hyperlogloglog.Base.{
  ℕ, zero, suc, ◌+◌, ◌%◌, ◌^◌, ◌≤◌, ◌<◌, ◌≡◌, refl, sym, ap, ◌∙◌, arith, false, ◌⊎◌, inl, inr,
  Bool-cases, ltb, ◌==◌, ◌&&◌,
}
use native.Mathlib.Decide.{dec_lt}
use hyperlogloglog.PackedMap
use hyperlogloglog.HyperLogLogLog.State.{HyperLogLogLog}
use hyperlogloglog.HyperLogLogLog.Registers.{get, value_at, iterate, rebase}
use hyperlogloglog.HyperLogLogLog.Compress.{Bases, lowest_two, Count, search_base, compress_full}
use hyperlogloglog.HyperLogLogLog.Rebase.{IsValid, retag-KeepsRegisters}
use hyperlogloglog.HyperLogLogLog.Keeps.{iterate_bound, lowest_two-le}
use hyperlogloglog.HyperLogLogLog.Counts.{count_none}
use hyperlogloglog.HyperLogLogLog.Rounds.{
  exceptions_at, below, IsCounted, counted, counted-IsCounted, below-le, below-next,
}

-- What the search returns, with the number of exceptions that it has found.
record IsLeast (h : HyperLogLogLog) (best_ns best result : ℕ) : Type 0 where
  ns : ℕ
  kept_or_found :
      ((result ≡ best) × (ns ≡ best_ns)) ⊎ ((ns < best_ns) × (exceptions_at h result ≡ ns))
  least : (j : ℕ) → j < h.m → ns ≤ exceptions_at h (get h j)

module _ {h : HyperLogLogLog} (valid : IsValid h) where
  -- The loop ends: all registers are below the potential base, or enough are.
  ended :
      (p n best_ns best : ℕ)
      → n ≡ below h p
      → ((j : ℕ) → j < h.m → get h j < p → best_ns ≤ exceptions_at h (get h j))
      → (best_ns ≤ n) ⊎ (64 ≤ p)
      → IsLeast h best_ns best best
  ended p n best_ns best e done end = record {
    ns = best_ns;
    kept_or_found = inl (refl, refl);
    least = λ j hj. elim (dec_lt (get h j) p) [
      | yes lt ↦ done j hj lt
      | no ge ↦ elim end [
        | inl enough ↦ omega (arith, below-le valid p (get h j) (omega arith), e, enough)
        | inr top ↦ absurd (omega (arith, valid.ranks j hj, top))
      ]
    ];
  }

  -- A bound for the registers below the next potential base.
  passed :
      (p n best_ns ns : ℕ) (c : Count)
      → IsCounted h p n c h.m
      → ((j : ℕ) → j < h.m → get h j < p → best_ns ≤ exceptions_at h (get h j))
      → ns ≤ best_ns
      → ns ≤ c.ns
      → (j : ℕ) → j < h.m
      → get h j < c.next
      → ns ≤ exceptions_at h (get h j)
  passed p n best_ns ns c seen done le le' j hj lt = elim (dec_lt (get h j) p) [
    | yes small ↦ omega (arith, done j hj small, le)
    | no ge ↦
        let here : get h j ≡ p = ground (arith, seen.next j hj, lt, ge) in
        omega (arith, ap (exceptions_at h) here, seen.ns, le')
  ]

  -- A round that finds fewer exceptions.
  improved :
      (p best_ns best ns result : ℕ)
      → ns < best_ns
      → ns ≡ exceptions_at h p
      → IsLeast h ns p result
      → IsLeast h best_ns best result
  improved p best_ns best ns result lt e rest = record {
    ns = rest.ns;
    kept_or_found = elim rest.kept_or_found [
      | inl (same, found) ↦
          inr (omega (arith, lt, found), ap (exceptions_at h) same ∙ omega (arith, e, found))
      | inr (less, found) ↦ inr (omega (arith, lt, less), found)
    ];
    least = rest.least;
  }

  search_base-IsLeast :
      (fuel p n best_ns best : ℕ)
      → 64 ≤ fuel + p
      → n ≡ below h p
      → ((j : ℕ) → j < h.m → get h j < p → best_ns ≤ exceptions_at h (get h j))
      → IsLeast h best_ns best (search_base fuel h p n best_ns best)
  unfolding search_base
  search_base-IsLeast zero p n best_ns best enough e done =
      ended p n best_ns best e done (inr (omega arith))
  search_base-IsLeast (suc fuel) p n best_ns best enough e done =
      let top : 2 ^ h.s_bits ≡ 64 = ap (λ (e : ℕ). 2 ^ e) valid.shape.s_bits in
      elim (Bool-cases (ltb n best_ns && ltb p (2 ^ h.s_bits))) [
        | inr stop ↦ rw stop (ended p n best_ns best e done (stopped stop top))
        | inl go ↦
            let low : p < 64 = ground (arith, go, top) in
            let c = counted valid p n in
            let seen = counted-IsCounted valid p n low in
            let total : c.below ≡ below h c.next =
              seen.total ∙ omega (arith, e, below-next valid p c n seen) in
            let later : 64 ≤ fuel + c.next = omega (arith, enough, seen.above) in
            elim (Bool-cases (ltb c.ns best_ns)) [
              | inl better ↦
                  rw (go, better)
                    (improved p best_ns best c.ns _ (ground (arith, better)) seen.ns (
                      search_base-IsLeast fuel c.next c.below c.ns p later total (
                        passed p n best_ns c.ns c seen done (ground (arith, better))
                          (omega arith))))
              | inr worse ↦
                  rw (go, worse)
                    (search_base-IsLeast fuel c.next c.below best_ns best later total (
                      passed p n best_ns best_ns c seen done (omega arith) (ground (arith, worse))))
            ]
      ]
    where
      stopped :
          (ltb n best_ns && ltb p (2 ^ h.s_bits)) ≡ false
          → 2 ^ h.s_bits ≡ 64
          → (best_ns ≤ n) ⊎ (64 ≤ p)
      stopped stop top = elim (dec_lt n best_ns) [
        | yes lt ↦ inr (ground (arith, stop, top, lt))
        | no ge ↦ inl (omega arith)
      ]

  abbrev lowest : Bases
  lowest =
      iterate lowest_two h
        (record { potential = 2 ^ h.s_bits % 2 ^ 8; next = 2 ^ h.s_bits % 2 ^ 8 })

  abbrev bounded : HyperLogLogLog
  bounded = record h { lower_bound = lowest.potential }

  abbrev best : ℕ
  best = search_base 65 bounded lowest.potential 0 (PackedMap.size h.sparse) h.base

  lowest-le : (j : ℕ) → j < h.m → lowest.potential ≤ get h j
  lowest-le =
      iterate_bound (λ (b : Bases). b.potential) lowest_two
        (record { potential = 2 ^ h.s_bits % 2 ^ 8; next = 2 ^ h.s_bits % 2 ^ 8 }) valid
        (λ j r b hr. lowest_two-le j r b hr)

  base-compress_full : (compress_full h).base ≡ best
  unfolding compress_full rebase
  base-compress_full = elim (Bool-cases (best == h.base)) [
    | inl e ↦ rw e (ground (arith, e))
    | inr e ↦ rw e refl
  ]

-- In a valid sketch, `compressFull` either keeps the base, and then with no register as a base
-- there are fewer exceptions than are stored, or it takes a base with fewer exceptions than are
-- stored, and then with no register as a base there are fewer exceptions than with this one.
pub compress_full-least :
    {h : HyperLogLogLog}
    → IsValid h
    → (((compress_full h).base ≡ h.base)
        × ((j : ℕ) → j < h.m → PackedMap.size h.sparse ≤ exceptions_at h (get h j)))
      ⊎ ((exceptions_at h (compress_full h).base < PackedMap.size h.sparse)
          × ((j : ℕ)
              → j < h.m
              → exceptions_at h (compress_full h).base ≤ exceptions_at h (get h j)))
unfolding get value_at
compress_full-least {h} valid =
    let kept =
      retag-KeepsRegisters (lowest valid).potential h.min_value_count h.compress_count
        h.rebase_count valid (lowest-le valid) in
    let none : 0 ≡ below h (lowest valid).potential =
      sym (count_none _ h.m (λ i hi. ground (arith, lowest-le valid i hi))) in
    let found : IsLeast h (PackedMap.size h.sparse) h.base (best valid) = to_sketch (
      search_base-IsLeast kept.valid 65 (lowest valid).potential 0 (PackedMap.size h.sparse) h.base
        (omega arith) none (λ j hj lt. absurd (omega (arith, lowest-le valid j hj)))) in
    let base = base-compress_full valid in
    elim found.kept_or_found [
      | inl (same, ns) ↦ inl (base ∙ same, λ j hj. omega (arith, found.least j hj, ns))
      | inr (less, ns) ↦
          let here = ap (exceptions_at h) base in
          inr (omega (arith, here, less, ns), λ j hj. omega (arith, here, found.least j hj, ns))
    ]
  where
    to_sketch :
        IsLeast (bounded valid) (PackedMap.size h.sparse) h.base (best valid)
        → IsLeast h (PackedMap.size h.sparse) h.base (best valid)
    to_sketch found = record {
      ns = found.ns;
      kept_or_found = found.kept_or_found;
      least = found.least;
    }
