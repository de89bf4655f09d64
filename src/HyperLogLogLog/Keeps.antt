-- ===== src/HyperLogLogLog/Keeps.antt =====
-- No compression changes a register, and each sets a lower bound that is one.
use hyperlogloglog.Base.{
  ℕ, ◌+◌, ◌%◌, ◌^◌, ◌≤◌, ◌<◌, refl, ap, arith, Bool, true, false, ltb, ◌==◌, if◌then◌else◌, inl,
  inr, Bool-cases,
}
use hyperlogloglog.PackedMap
use hyperlogloglog.HyperLogLogLog.State.{HyperLogLogLog, has, type_full, type_increase, bottom}
use hyperlogloglog.HyperLogLogLog.Registers.{get, iterate, rebase}
use hyperlogloglog.HyperLogLogLog.Compress.{
  Bases, lowest_two, raise_base, search_base, compress_full, compress_increase, compress_bottom,
  compress,
}
use hyperlogloglog.HyperLogLogLog.Rebase.{
  IsValid, KeepsRegisters, KeepsRegisters-trans, retag-KeepsRegisters, rebase-KeepsRegisters,
}
use hyperlogloglog.HyperLogLogLog.Iterate.{iterate-over, over_inv}

-- An `iterate` that never lets `bound` exceed a register it has seen ends below all registers.
pub iterate_bound {ℓ} :
    {A : Type ℓ} (bound : A → ℕ) (f : ℕ → ℕ → A → A) {h : HyperLogLogLog} (a : A)
    → IsValid h
    → ((j r : ℕ) (b : A) → r < 64 → (bound (f j r b) ≤ r) × (bound (f j r b) ≤ bound b))
    → (j : ℕ) → j < h.m
    → bound (iterate f h a) ≤ get h j
iterate_bound {A} bound f {h} a valid keep j hj = rw (iterate-over f valid.shape a) (
    over_inv (λ k (b : A). (i : ℕ) → i < k → bound b ≤ get h i) f (get h) h.m 0 h.m a (omega arith)
      (λ k b hk old i hi.
        let step = keep k (get h k) b (valid.ranks k hk) in
        ground (arith, step, old i, ap (get h) {x = i} {y = k}))
      (λ i hi. absurd (omega arith)) j hj)

pub lowest_two-le :
    (j r : ℕ) (b : Bases)
    → r < 64
    → ((lowest_two j r b).potential ≤ r) × ((lowest_two j r b).potential ≤ b.potential)
unfolding lowest_two
lowest_two-le j r b h = ground arith

raise_base-le :
    (base j r : ℕ) (b : Bases)
    → r < 64
    → ((raise_base base j r b).next ≤ r) × ((raise_base base j r b).next ≤ b.next)
unfolding raise_base
raise_base-le base j r b h = ground arith

-- What each compression does last: set a lower bound, and rebase or not.
module _ {h : HyperLogLogLog} (valid : IsValid h) (lower mins : ℕ)
    (bound : (j : ℕ) → j < h.m → lower ≤ get h j) where
  abbrev bounded : HyperLogLogLog
  bounded = record h { lower_bound = lower; min_value_count = mins }

  keeps : KeepsRegisters h bounded
  keeps = retag-KeepsRegisters lower mins h.compress_count h.rebase_count valid bound

  maybe_rebase :
      (test : Bool) (new_base : ℕ)
      → KeepsRegisters h (if test then rebase bounded new_base else bounded)
  maybe_rebase true new_base =
      KeepsRegisters-trans keeps (rebase-KeepsRegisters new_base keeps.valid)
  maybe_rebase false new_base = keeps

compress_full-KeepsRegisters : {h : HyperLogLogLog} → IsValid h → KeepsRegisters h (compress_full h)
unfolding compress_full
compress_full-KeepsRegisters {h} valid =
    let top = 2 ^ h.s_bits % 2 ^ 8 in
    let start : Bases = record { potential = top; next = top } in
    let low = iterate lowest_two h start in
    let h' = record h { lower_bound = low.potential } in
    let best = search_base 65 h' low.potential 0 (PackedMap.size h.sparse) h.base in
    let bound : (j : ℕ) → j < h.m → low.potential ≤ get h j =
      iterate_bound (λ (b : Bases). b.potential) lowest_two start valid
        (λ j r b hr. lowest_two-le j r b hr) in
    elim (Bool-cases (best == h.base)) [
      | inl e ↦ rw e (keeps valid low.potential h.min_value_count bound)
      | inr e ↦ rw e (maybe_rebase valid low.potential h.min_value_count bound true best)
    ]

compress_increase-KeepsRegisters :
    {h : HyperLogLogLog} → IsValid h → KeepsRegisters h (compress_increase h)
unfolding compress_increase
compress_increase-KeepsRegisters {h} valid =
    let top = 2 ^ h.s_bits % 2 ^ 8 in
    let start : Bases = record { potential = top; next = top } in
    let b = iterate (raise_base h.base) h start in
    let bound : (j : ℕ) → j < h.m → b.next ≤ get h j =
      iterate_bound (λ (c : Bases). c.next) (raise_base h.base) start valid
        (λ j r c hr. raise_base-le h.base j r c hr) in
    maybe_rebase valid b.next h.min_value_count bound _ b.potential

compress_bottom-KeepsRegisters :
    {h : HyperLogLogLog} → IsValid h → KeepsRegisters h (compress_bottom h)
unfolding compress_bottom
compress_bottom-KeepsRegisters {h} valid =
    let top = 2 ^ h.s_bits % 2 ^ 8 in
    let least = λ (j r l : ℕ). if ltb r l then r % 2 ^ 8 else l in
    let bound : (j : ℕ) → j < h.m → iterate least h top ≤ get h j =
      iterate_bound (λ (l : ℕ). l) least top valid (λ j r l hr. ground arith) in
    maybe_rebase valid (iterate least h top) _ bound _ (iterate least h top)

-- Counting a compression changes no register.
counted :
    {h h' : HyperLogLogLog}
    → KeepsRegisters h h'
    → KeepsRegisters h (record h' { compress_count = (h'.compress_count + 1) % 2 ^ 32 })
counted {h} {h'} kept = KeepsRegisters-trans kept (
    retag-KeepsRegisters h'.lower_bound h'.min_value_count ((h'.compress_count + 1) % 2 ^ 32)
      h'.rebase_count kept.valid kept.valid.lower)

-- `compress` of a valid sketch, with any flags, gives a valid sketch with as many registers and
-- the same registers.
pub compress-KeepsRegisters : {h : HyperLogLogLog} → IsValid h → KeepsRegisters h (compress h)
unfolding compress
compress-KeepsRegisters {h} valid = counted choice
  where
    choice : KeepsRegisters h (
        if has h.flags type_full
        then compress_full h
        else if has h.flags type_increase
        then compress_increase h
        else if h.flags == bottom
        then compress_bottom h
        else h)
    choice = elim (Bool-cases (has h.flags type_full)) [
      | inl e ↦ rw e (compress_full-KeepsRegisters valid)
      | inr e ↦ rw e (elim (Bool-cases (has h.flags type_increase)) [
        | inl e' ↦ rw e' (compress_increase-KeepsRegisters valid)
        | inr e' ↦ rw e' (elim (Bool-cases (h.flags == bottom)) [
          | inl e'' ↦ rw e'' (compress_bottom-KeepsRegisters valid)
          | inr e'' ↦
              rw e'' (record { valid = valid; m = refl; same = λ j p. refl; tight = λ x. x })
        ])
      ])
    ]
