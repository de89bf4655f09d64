-- ===== src/HyperLogLogLog/Bottom/Compress.antt =====
-- What `compressBottom` finds.
use hyperlogloglog.Base.{
  ℕ, zero, suc, ◌+◌, ◌%◌, ◌^◌, ◌≤◌, ◌<◌, ◌≡◌, refl, sym, ap, ap₂, ◌∙◌, arith, ◌⊎◌, inl, inr,
  Bool-cases, ltb, ◌==◌, if◌then◌else◌,
}
use hyperlogloglog.HyperLogLogLog.State.{HyperLogLogLog, bottom}
use hyperlogloglog.HyperLogLogLog.Registers.{get, place, rebase_from, rebase, iterate}
use hyperlogloglog.HyperLogLogLog.Compress.{compress_bottom, compress}
use hyperlogloglog.HyperLogLogLog.Rebase.{IsValid}
use hyperlogloglog.HyperLogLogLog.Iterate.{iterate-over, over_inv}
use hyperlogloglog.HyperLogLogLog.Keeps.{iterate_bound, compress-KeepsRegisters}
use hyperlogloglog.HyperLogLogLog.Occurrences.{
  occurrences, occurrences-le, occurrences_ext, occurrences_pos,
}
use hyperlogloglog.HyperLogLogLog.Bottom.{IsBottom}

-- The fields that a `rebase` leaves alone.
record SameMinimum (h h' : HyperLogLogLog) : Type 0 where
  lower_bound : h'.lower_bound ≡ h.lower_bound
  min_value_count : h'.min_value_count ≡ h.min_value_count
  flags : h'.flags ≡ h.flags

rebase_from-SameMinimum :
    (new_base rounds i : ℕ) (h : HyperLogLogLog) → SameMinimum h (rebase_from new_base rounds i h)
unfolding rebase_from place
rebase_from-SameMinimum new_base zero i h = record {
  lower_bound = refl;
  min_value_count = refl;
  flags = refl;
}
rebase_from-SameMinimum new_base (suc rounds) i h =
    let rest = rebase_from-SameMinimum new_base rounds (i + 1) _ in
    record {
      lower_bound = rest.lower_bound ∙ ground arith;
      min_value_count = rest.min_value_count ∙ ground arith;
      flags = rest.flags ∙ ground arith;
    }

-- The functions of its two loops.
abbrev lesser : ℕ → ℕ → ℕ → ℕ
lesser j r l = if ltb r l then r % 2 ^ 8 else l

abbrev tick : ℕ → ℕ → ℕ → ℕ → ℕ
tick low j r n = if r == low then (n + 1) % 2 ^ 32 else n

module _ {h : HyperLogLogLog} (valid : IsValid h) where
  abbrev low : ℕ
  low = iterate lesser h (2 ^ h.s_bits % 2 ^ 8)

  low-le : (j : ℕ) → j < h.m → low ≤ get h j
  low-le =
      iterate_bound (λ (l : ℕ). l) lesser (2 ^ h.s_bits % 2 ^ 8) valid (λ j r l hr. ground arith)

  -- The least register is one of the registers.
  low-attained : 0 < h.m → (j : ℕ) × (j < h.m) × (get h j ≡ low)
  low-attained pos =
      let top : 2 ^ h.s_bits % 2 ^ 8 ≡ 64 = ap (λ e. 2 ^ e % 2 ^ 8) valid.shape.s_bits in
      let found : ((h.m ≡ 0) × (low ≡ 64)) ⊎ ((j : ℕ) × (j < h.m) × (get h j ≡ low)) =
        rw (iterate-over lesser valid.shape (2 ^ h.s_bits % 2 ^ 8)) (
          over_inv (λ k (b : ℕ). ((k ≡ 0) × (b ≡ 64)) ⊎ ((j : ℕ) × (j < k) × (get h j ≡ b))) lesser
            (get h) h.m 0 h.m (2 ^ h.s_bits % 2 ^ 8) (omega arith) (λ k b hk old. seen k b hk old)
            (inl (refl, top))) in
      elim found [ inl e ↦ absurd (omega (arith, e.0)) | inr s ↦ s ]
    where
      seen :
          (k b : ℕ)
          → k < h.m
          → ((k ≡ 0) × (b ≡ 64)) ⊎ ((j : ℕ) × (j < k) × (get h j ≡ b))
          → ((k + 1 ≡ 0) × (lesser k (get h k) b ≡ 64))
            ⊎ ((j : ℕ) × (j < k + 1) × (get h j ≡ lesser k (get h k) b))
      seen k b hk old = elim (Bool-cases (ltb (get h k) b)) [
        | inl e ↦ inr (k, omega arith, ground (arith, e, valid.ranks k hk))
        | inr e ↦ elim old [
          | inl o ↦ absurd (ground (arith, e, o, valid.ranks k hk))
          | inr (j, p, same) ↦ inr (j, omega arith, ground (arith, e, same))
        ]
      ]

  counted : (l : ℕ) → h.m < 2 ^ 32 → iterate (tick l) h 0 ≡ occurrences (get h) l h.m
  counted l small = rw (iterate-over (tick l) valid.shape 0) (
      over_inv (λ k (b : ℕ). b ≡ occurrences (get h) l k) (tick l) (get h) h.m 0 h.m 0 (omega arith)
        (λ k b hk old. one_more k b hk old) (unfold occurrences in refl))
    where
      one_more :
          (k b : ℕ)
          → k < h.m
          → b ≡ occurrences (get h) l k
          → tick l k (get h k) b ≡ occurrences (get h) l (k + 1)
      one_more k b hk old =
          let next : k + 1 ≡ suc k = omega arith in
          rw next (unfold occurrences in ground (arith, occurrences-le (get h) l k, old, small))

  bottom_compress :
      h.flags ≡ bottom
      → compress h ≡ record (compress_bottom h) {
        compress_count = ((compress_bottom h).compress_count + 1) % 2 ^ 32;
      }
  unfolding compress
  bottom_compress flags = rw flags refl

  -- What `compressBottom` leaves in the fields.
  compress_bottom-fields :
      h.base ≤ low
      → ((compress_bottom h).lower_bound ≡ low)
        × ((compress_bottom h).min_value_count ≡ iterate (tick low) h 0)
        × ((compress_bottom h).base ≡ low)
        × ((compress_bottom h).flags ≡ h.flags)
  unfolding compress_bottom rebase
  compress_bottom-fields le =
      let h' : HyperLogLogLog = record h {
        lower_bound = low;
        min_value_count = iterate (tick low) h 0;
      } in
      let moved = rebase_from-SameMinimum low h.m 0 h' in
      elim (Bool-cases (ltb h.base low)) [
        | inl e ↦ rw e (moved.lower_bound, moved.min_value_count, refl, moved.flags)
        | inr e ↦ rw e (refl, refl, ground (arith, e, le), refl)
      ]

  -- With a base at most every register, `compress` sets up the bottom mode.
  pub compress-IsBottom :
      h.flags ≡ bottom
      → 0 < h.m
      → h.m < 2 ^ 32
      → ((j : ℕ) → j < h.m → h.base ≤ get h j)
      → IsBottom (compress h)
  compress-IsBottom flags pos small above =
      let (i, hi, attained) = low-attained pos in
      let (e_lower, e_count, e_base, e_flags) =
        compress_bottom-fields (omega (arith, above i hi, attained)) in
      let kept = compress-KeepsRegisters valid in
      let lower : (compress h).lower_bound ≡ low =
        ap (λ k. k.lower_bound) (bottom_compress flags) ∙ e_lower in
      let count : (compress h).min_value_count ≡ occurrences (get h) low h.m =
        ap (λ k. k.min_value_count) (bottom_compress flags) ∙ e_count ∙ counted low small in
      record {
        flags = ap (λ k. k.flags) (bottom_compress flags) ∙ e_flags ∙ flags;
        base = ap (λ k. k.base) (bottom_compress flags) ∙ e_base ∙ sym lower;
        count =
            count
            ∙ sym (occurrences_ext (get (compress h)) (get h) low h.m kept.same)
            ∙ ap₂ (λ l m. occurrences (get (compress h)) l m) (sym lower) (sym kept.m);
        some_least = omega (arith, count, occurrences_pos (get h) low h.m i hi attained);
      }
