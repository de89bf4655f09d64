-- ===== src/HyperLogLogLog/History/Reached.antt =====
-- What holds of every sketch with a history.
use hyperlogloglog.Base.{ℕ, ◌^◌, ◌≤◌, ◌<◌, ◌≡◌, refl, sym, ◌∙◌, arith, some, ◌++◌}
use hyperlogloglog.Registers.{Stream, max_rank, max_rank-append, IsInRange, IsInRange-append}
use hyperlogloglog.HyperLogLogLog.State.{HyperLogLogLog, new}
use hyperlogloglog.HyperLogLogLog.Registers.{get}
use hyperlogloglog.HyperLogLogLog.Merge.{merge}
use hyperlogloglog.HyperLogLogLog.Rebase.{IsValid}
use hyperlogloglog.HyperLogLogLog.Refine.{add_jr-IsRaised}
use hyperlogloglog.HyperLogLogLog.New.{new-IsValid}
use hyperlogloglog.HyperLogLogLog.Config.{SameConfig, SameConfig-trans, add_jr-SameConfig}
use hyperlogloglog.HyperLogLogLog.Merge.Joined.{merge-IsJoined}
use hyperlogloglog.HyperLogLogLog.Merge.Streams.{new-again}
use hyperlogloglog.HyperLogLogLog.Merge.Config.{merge-SameConfig}
use hyperlogloglog.HyperLogLogLog.Tight.{IsTight}
use hyperlogloglog.HyperLogLogLog.Tight.Streams.{new-IsBest}
use hyperlogloglog.HyperLogLogLog.History.{History, created, added, merged}

-- `h` holds the pairs of `s`, and is set up as `h₀`, which the constructor has made.
pub record IsReached (m : ℕ) (h₀ h : HyperLogLogLog) (s : Stream) : Type 0 where
  pub valid : IsValid h
  pub tight : IsTight h
  pub config : SameConfig h₀ h
  pub size : h.m ≡ m
  pub range : IsInRange m s
  pub registers : (j : ℕ) → j < m → get h j ≡ max_rank s j

module _ (m m_bits flags : ℕ) {h₀ : HyperLogLogLog} (small : m ≤ 2 ^ 30) (pos : 0 < m_bits)
    (le : m_bits ≤ 8) (made : new m m_bits flags ≡ some h₀) where
  -- From the sketches of two histories the constructor makes the same empty sketch again.
  pub again :
      {h : HyperLogLogLog} {s : Stream} → IsReached m h₀ h s → new h.m h.m_bits h.flags ≡ some h₀
  again reached =
      let (valid, size, zeros) = new-IsValid m m_bits flags small pos le made in
      rw (reached.size ∙ sym size, reached.config.m_bits, reached.config.flags)
        (new-again m m_bits flags le made).1

  -- Two sketches with histories merge, and the result has one.
  pub merge-IsReached :
      {a b : HyperLogLogLog} {s t : Stream}
      → IsReached m h₀ a s
      → IsReached m h₀ b t
      → (h : HyperLogLogLog) × (merge a b ≡ some h) × IsReached m h₀ h (s ++ t)
  merge-IsReached {a} {b} {s} {t} ra rb =
      let ca = ra.config in
      let cb = rb.config in
      let bits = (new-again m m_bits flags le made).0 in
      let (h, e, joined) =
        merge-IsJoined ra.valid rb.valid (rb.size ∙ sym ra.size) (cb.m_bits ∙ sym ca.m_bits)
          (omega (arith, ca.m_bits, bits)) (again ra) (cb.s_bits ∙ sym ca.s_bits)
          (cb.flags ∙ sym ca.flags) in
      (
        h,
        e,
        record {
          valid = joined.valid;
          tight = joined.tight;
          config = merge-SameConfig a b (again ra) e;
          size = joined.m ∙ ra.size;
          range = IsInRange-append m s t ra.range rb.range;
          registers = λ j p. ground (
            arith,
            joined.registers j,
            ra.size,
            ra.registers j p,
            rb.registers j p,
            max_rank-append s t j,
          );
        },
      )

  pub History-IsReached :
      {h : HyperLogLogLog} {s : Stream} → History m m_bits flags h s → IsReached m h₀ h s
  unfolding max_rank
  History-IsReached (created {h} e) =
      let same : h₀ ≡ h = ground (arith, made, e) in
      let (valid, size, zeros) = new-IsValid m m_bits flags small pos le made in
      rw (← same) (record {
        valid = valid;
        tight = (new-IsBest m m_bits flags small pos le made).tight;
        config = record { m_bits = refl; s_bits = refl; flags = refl };
        size = size;
        range = tt;
        registers = zeros;
      })
  History-IsReached (added {h} {s} j r old hj hr) =
      let before = History-IsReached old in
      let one = add_jr-IsRaised j r before.valid (omega (arith, before.size)) hr in
      record {
        valid = one.valid;
        tight = one.tight before.tight;
        config = SameConfig-trans before.config (add_jr-SameConfig h j r);
        size = one.m ∙ before.size;
        range = (hj, hr, before.range);
        registers = λ k p. ground (arith, one.registers k, before.size, before.registers k p);
      }
  History-IsReached (merged {a} {b} {h} {s} {t} left right e) =
      let (h', e', joined) = merge-IsReached (History-IsReached left) (History-IsReached right) in
      let same : h' ≡ h = ground (arith, e, e') in rw (← same) joined
