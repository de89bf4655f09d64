-- ===== src/HyperLogLog/Streams.antt =====
-- A whole stream of pairs of an index and a rank, as hyperlogloglog/measure.cpp adds it, and a
-- single hash.
use hyperlogloglog.Base.{ℕ, ◌^◌, ◌<◌, ◌≡◌, refl, sym, ◌∙◌, arith, some, max, [], ◌∷◌, ◌++◌}
use hyperlogloglog.Base.Bits.{test_bit}
use hyperlogloglog.Common.{rho, clz}
use hyperlogloglog.Registers.{Stream, max_rank, IsInRange, max_rank-append, IsInRange-append}
use hyperlogloglog.HyperLogLog.{HyperLogLog, new, add_jr, add_hash, merge, export_registers}
use hyperlogloglog.HyperLogLog.Add.{
  IsValid, new-IsValid, register, register-new, register-add_jr, register-lt, register-add_jr-max,
  add_jr-IsValid, m-add_jr,
}
use hyperlogloglog.HyperLogLog.Export.{export_registers_ext}
use hyperlogloglog.HyperLogLog.Merge.{merge-IsMerged}

-- `for (const pair<int,int>& o : v) h.addJr(o.first, o.second);`
unfoldable pub adds : HyperLogLog → Stream → HyperLogLog
adds h [] = h
adds h ((j, r) ∷ s) = adds (add_jr h j r) s

-- A sketch after a stream: valid, of the same size, and with the greatest rank at each index.
pub record IsAdded (h : HyperLogLog) (s : Stream) (h' : HyperLogLog) : Type 0 where
  pub valid : IsValid h'
  pub m : h'.m ≡ h.m
  pub registers : (j : ℕ) → j < h.m → register h' j ≡ max (max_rank s j) (register h j)

-- A stream in range leaves each register with the greatest rank added at its index.
pub adds-IsAdded :
    (s : Stream) {h : HyperLogLog} → IsValid h → IsInRange h.m s → IsAdded h s (adds h s)
unfolding adds max_rank
adds-IsAdded [] valid range = record { valid = valid; m = refl; registers = λ j hj. omega arith }
adds-IsAdded ((i, r) ∷ s) {h} valid range =
    let rest = adds-IsAdded s (add_jr-IsValid i r valid range.0) (rw (m-add_jr h i r) range.2) in
    record {
      valid = rest.valid;
      m = rest.m ∙ m-add_jr h i r;
      registers = λ j hj. ground (
        arith,
        rest.registers j,
        m-add_jr h i r,
        register-add_jr-max i r valid range.0 j range.1 hj,
      );
    }

module _ (m : ℕ) (small : m < 2 ^ 31) where
  m-new : (new m).m ≡ m
  unfolding new
  m-new = refl

  -- From an empty sketch: each register is the greatest rank at its index.
  pub adds-new :
      (s : Stream)
      → IsInRange m s
      → IsValid (adds (new m) s)
        × ((adds (new m) s).m ≡ m)
        × ((j : ℕ) → j < m → register (adds (new m) s) j ≡ max_rank s j)
  adds-new s range =
      let after = adds-IsAdded s (new-IsValid m small) (rw m-new range) in
      (
        after.valid,
        after.m ∙ m-new,
        λ j hj. ground (arith, after.registers j, m-new, register-new m j small hj),
      )

  -- With fewer than 2 ^ 31 registers, two streams in range that have the same greatest rank at
  -- each index, such as two orders of one stream, or a stream with repetitions and the same
  -- without, export the same registers.
  pub export_registers-adds :
      (s t : Stream)
      → IsInRange m s
      → IsInRange m t
      → ((j : ℕ) → max_rank s j ≡ max_rank t j)
      → export_registers (adds (new m) s) ≡ export_registers (adds (new m) t)
  export_registers-adds s t hs ht same =
      let (vs, ms, rs) = adds-new s hs in
      let (vt, mt, rt) = adds-new t ht in
      export_registers_ext vs vt (ms ∙ sym mt) (λ j p. ground (arith, rs j, rt j, ms, same j))

  -- Take fewer than 2 ^ 31 registers, and two streams whose indices are below `m` and whose
  -- ranks are below 64. The sketches of the two streams merge into one that exports the
  -- registers of the sketch of the streams one after the other.
  pub merge-adds :
      (s t : Stream)
      → IsInRange m s
      → IsInRange m t
      → (h : HyperLogLog) × (merge (adds (new m) s) (adds (new m) t) ≡ some h)
        × (export_registers h ≡ export_registers (adds (new m) (s ++ t)))
  merge-adds s t hs ht =
      let (vs, ms, rs) = adds-new s hs in
      let (vt, mt, rt) = adds-new t ht in
      let (vb, mb, rb) = adds-new (s ++ t) (IsInRange-append m s t hs ht) in
      let (h, e, merged) = merge-IsMerged vs vt (ms ∙ sym mt) in
      (
        h,
        e,
        export_registers_ext merged.valid vb (merged.m ∙ ms ∙ sym mb) (λ j p.
            ground
              (arith, merged.registers j, merged.m, ms, rs j, rt j, rb j, max_rank-append s t j)),
      )

rho_one : rho 1 ≡ 64
unfolding rho clz test_bit
rho_one = refl

-- Adding the hash 1 to a valid sketch, where its index is below `m`, sets the register at that
-- index to 0, whatever it was: the rank 64 does not fit 6 bits.
pub add_hash-one :
    {h : HyperLogLog} (f : ℕ → ℕ → ℕ)
    → IsValid h
    → f 1 h.log_m < h.m
    → register (add_hash h 1 f) (f 1 h.log_m) ≡ 0
unfolding add_hash
add_hash-one {h} f valid hj = rw rho_one (
    ground (
      arith,
      register-add_jr (f 1 h.log_m) 64 valid hj (f 1 h.log_m) hj,
      register-lt (f 1 h.log_m) valid hj,
    ))
