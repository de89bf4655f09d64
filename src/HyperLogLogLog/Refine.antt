-- ===== src/HyperLogLogLog/Refine.antt =====
-- `addJr` keeps the greatest rank, as in HyperLogLog, whatever is compressed on the way.
use hyperlogloglog.Base.{
  ℕ, ◌+◌, ◌-◌, ◌%◌, ◌^◌, ◌≤◌, ◌<◌, ◌≡◌, refl, ap, ◌∙◌, arith, Bool, true, false, Option, max, ltb,
  leb, ◌==◌, if◌then◌else◌, inl, inr, Bool-cases,
}
use hyperlogloglog.PackedMap
use hyperlogloglog.PackedMap.Lookup.{lookup}
use hyperlogloglog.HyperLogLogLog.Tight.{IsTight}
use hyperlogloglog.HyperLogLogLog.State.{HyperLogLogLog}
use hyperlogloglog.HyperLogLogLog.Registers.{value_at, get, place}
use hyperlogloglog.HyperLogLogLog.Compress.{compress}
use hyperlogloglog.HyperLogLogLog.Update.{update, add_jr}
use hyperlogloglog.HyperLogLogLog.Shape.{is_some, IsPlaced, place-IsPlaced}
use hyperlogloglog.HyperLogLogLog.Rebase.{
  IsValid, get-value_at, KeepsRegisters, retag-KeepsRegisters,
}
use hyperlogloglog.HyperLogLogLog.Keeps.{compress-KeepsRegisters}

-- `h'` is valid, with the register at `j` raised to `r` if it was lower, and is tight if `h` is.
pub record IsRaised (h : HyperLogLogLog) (j r : ℕ) (h' : HyperLogLogLog) : Type 0 where
  pub valid : IsValid h'
  pub m : h'.m ≡ h.m
  pub registers : (k : ℕ) → k < h.m → get h' k ≡ (if j == k then max r (get h k) else get h k)
  pub tight : IsTight h → IsTight h'

keeps-IsRaised :
    {h h' h'' : HyperLogLogLog} (j r : ℕ)
    → IsRaised h j r h'
    → KeepsRegisters h' h''
    → IsRaised h j r h''
keeps-IsRaised j r raised kept = record {
  valid = kept.valid;
  m = kept.m ∙ raised.m;
  registers = λ k p. kept.same k (rw raised.m p) ∙ raised.registers k p;
  tight = λ x. kept.tight (raised.tight x);
}

module _ {h : HyperLogLogLog} (j r : ℕ) (valid : IsValid h) (hj : j < h.m) (hr : r < 64) where
  abbrev idx : Option ℕ
  idx = PackedMap.find h.sparse j

  abbrev old : ℕ
  old = value_at h h.base j

  pub old-get : get h j ≡ old
  old-get = get-value_at h j

  -- No change, where the rank is not greater.
  unchanged : r ≤ old → IsRaised h j r h
  unchanged le = record {
    valid = valid;
    m = refl;
    registers = λ k p. ground (arith, old-get, ap (get h) {x = j} {y = k});
    tight = λ x. x;
  }

  placed : IsPlaced h (place h h.base idx j r) h.base j r
  placed = place-IsPlaced h.base j r valid.shape hj hr

  get-place : (k : ℕ) → k < h.m → get (place h h.base idx j r) k ≡ (if j == k then r else get h k)
  get-place k p =
      let h' = place h h.base idx j r in
      get-value_at h' k
      ∙ ap (λ b. value_at h' b k) placed.base_kept
      ∙ ground (
        arith,
        placed.own,
        placed.others k h.base p,
        get-value_at h k,
        ap (value_at h' h.base) {x = j} {y = k},
      )

  -- A tight sketch stays tight, as the base is the same.
  place-IsTight : IsTight h → IsTight (place h h.base idx j r)
  place-IsTight tight = record {
    stored = λ k p. ground (
      arith,
      get-place k,
      placed.m,
      placed.base_kept,
      placed.max_offset,
      placed.stored,
      placed.kept k,
      tight.stored k,
      ap (λ (i : ℕ). is_some (lookup (place h h.base idx j r).sparse i)) {x = j} {y = k},
    );
  }

  place-IsRaised : old < r → IsRaised h j r (place h h.base idx j r)
  place-IsRaised lt = record {
    valid = record {
      shape = placed.shape;
      ranks = λ k p. ground (arith, get-place k, placed.m, valid.ranks k);
      lower = λ k p.
          ground (
            arith,
            get-place k,
            placed.m,
            placed.lower_bound,
            valid.lower k,
            valid.lower j,
            old-get,
          );
    };
    m = placed.m;
    registers = λ k p. ground (arith, get-place k p, old-get, ap (get h) {x = j} {y = k});
    tight = place-IsTight;
  }

  pub update-IsRaised : old < r → IsRaised h j r (update h j r idx old)
  unfolding update
  update-IsRaised lt =
      let h' = place h h.base idx j r in
      let raised = place-IsRaised lt in
      elim (Bool-cases (old == h.lower_bound)) [
        | inl e ↦ rw e (
            keeps-IsRaised j r raised (
              retag-KeepsRegisters h'.lower_bound ((h'.min_value_count + (2 ^ 32 - 1)) % 2 ^ 32)
                h'.compress_count h'.rebase_count raised.valid raised.valid.lower))
        | inr e ↦ rw e raised
      ]

  stored : IsRaised h j r (if ltb old r then update h j r idx old else h)
  stored = elim (Bool-cases (ltb old r)) [
    | inl e ↦ rw e (update-IsRaised (ground arith))
    | inr e ↦ rw e (unchanged (ground arith))
  ]

  maybe_compressed :
      (test : Bool) {h' : HyperLogLogLog}
      → IsRaised h j r h'
      → IsRaised h j r (if test then compress h' else h')
  maybe_compressed true raised = keeps-IsRaised j r raised (compress-KeepsRegisters raised.valid)
  maybe_compressed false raised = raised

  -- In a valid sketch, with an index below `m` and a rank below 64, `addJr` gives a valid
  -- sketch of `m` registers in which the register at the index is the greater of the rank and
  -- what it was, and every other register is as it was.
  pub add_jr-IsRaised : IsRaised h j r (add_jr h j r)
  unfolding add_jr
  add_jr-IsRaised = elim (Bool-cases (leb r h.lower_bound)) [
    | inl e ↦ rw e (unchanged (ground (arith, valid.lower j hj, old-get)))
    | inr e ↦ rw e (maybe_compressed _ stored)
  ]
