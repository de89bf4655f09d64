-- ===== src/HyperLogLogZstd/Streams.antt =====
-- After any stream, a compressed sketch has the registers of a HyperLogLog.
use hyperlogloglog.Base.{
  ℕ, ◌^◌, ◌<◌, ◌≡◌, refl, sym, ap, ◌∙◌, arith, some, [], ◌∷◌, ◌++◌, max, get_or_ext,
}
use hyperlogloglog.Registers.{Stream, max_rank, IsInRange, max_rank-append, IsInRange-append}
use hyperlogloglog.HyperLogLog
use hyperlogloglog.HyperLogLog.Add as Vanilla
use hyperlogloglog.HyperLogLog.Export
use hyperlogloglog.HyperLogLog.Streams as VanillaStreams
use hyperlogloglog.HyperLogLogZstd.{
  Zstd, IsLossless, HyperLogLogZstd, new, add_jr, export_registers, merge,
}
use hyperlogloglog.HyperLogLogZstd.Valid.{IsValid, register, new-IsValid}
use hyperlogloglog.HyperLogLogZstd.Add.{zstd_add_jr-IsRaised, export_registers-temp, merge-IsJoined}

module _ (z : Zstd) where
  -- `for (const pair<int,int>& o : v) h.addJr(o.first, o.second);`
  unfoldable pub adds : HyperLogLogZstd → Stream → HyperLogLogZstd
  adds h [] = h
  adds h ((j, r) ∷ s) = adds (add_jr z h j r) s

  -- A sketch after a stream.
  pub record IsAdded (h : HyperLogLogZstd) (s : Stream) (h' : HyperLogLogZstd) : Type 0 where
    pub valid : IsValid z h'
    pub m : h'.m ≡ h.m
    pub registers : (j : ℕ) → j < h.m → register h' j ≡ max (max_rank s j) (register h j)

  module _ (laws : IsLossless z) where
    adds-IsAdded :
        (s : Stream) {h : HyperLogLogZstd} → IsValid z h → IsInRange h.m s → IsAdded h s (adds h s)
    unfolding adds max_rank
    adds-IsAdded [] valid range = record {
      valid = valid;
      m = refl;
      registers = λ j hj. omega arith;
    }
    adds-IsAdded ((i, r) ∷ s) {h} valid range =
        let one = zstd_add_jr-IsRaised laws i r valid range.0 (omega (arith, range.1)) in
        let rest = adds-IsAdded s one.valid (rw one.m range.2) in
        record {
          valid = rest.valid;
          m = rest.m ∙ one.m;
          registers = λ j hj. ground (arith, rest.registers j, one.m, one.registers j hj);
        }

    -- A compressed sketch with the registers of a HyperLogLog exports the same list.
    export_registers_agree :
        {h : HyperLogLogZstd} {g : HyperLogLog.HyperLogLog}
        → IsValid z h
        → Vanilla.IsValid g
        → h.m ≡ g.m
        → ((j : ℕ) → j < h.m → register h j ≡ Vanilla.register g j)
        → (export_registers z h).0 ≡ HyperLogLog.export_registers g
    export_registers_agree {h} {g} vh vg e same =
        ap (λ p. p.0) (export_registers-temp laws vh)
        ∙ get_or_ext 0 _ _ (vh.count ∙ e ∙ sym (Export.length-export_registers g))
            (λ j p. ground (arith, vh.count, Export.get_or-export_registers j vg, same j))

    -- Take a lossless zstd, fewer than 2 ^ 31 registers, and a stream whose indices are below
    -- `m` and whose ranks are below 64. After the stream, the compressed sketch exports the
    -- same registers as a HyperLogLog after the same stream.
    pub zstd_adds_refines :
        (m : ℕ) (s : Stream)
        → m < 2 ^ 31
        → IsInRange m s
        → (export_registers z (adds (new z m) s)).0
          ≡ HyperLogLog.export_registers (VanillaStreams.adds (HyperLogLog.new m) s)
    zstd_adds_refines m s small range =
        let (valid, size, zeros) = new-IsValid laws m in
        let after = adds-IsAdded s valid (rw size range) in
        let (vg, mg, rg) = VanillaStreams.adds-new m small s range in
        export_registers_agree after.valid vg (after.m ∙ size ∙ sym mg)
          (λ j p. ground (arith, after.m, size, after.registers j, zeros j, rg j))

    -- Take a lossless zstd, fewer than 2 ^ 31 registers, and two streams whose indices are
    -- below `m` and whose ranks are below 64. The compressed sketches of the streams merge, and
    -- are not changed by it; the merged one exports the same registers as a HyperLogLog after
    -- the streams one after the other.
    pub zstd_merge_refines :
        (m : ℕ) (s t : Stream)
        → m < 2 ^ 31
        → IsInRange m s
        → IsInRange m t
        → (h : HyperLogLogZstd) × (merge z (adds (new z m) s) (adds (new z m) t)
            ≡ some (adds (new z m) s, adds (new z m) t, h))
          × ((export_registers z h).0
              ≡ HyperLogLog.export_registers (VanillaStreams.adds (HyperLogLog.new m) (s ++ t)))
    zstd_merge_refines m s t small hs ht =
        let (valid, size, zeros) = new-IsValid laws m in
        let a = adds-IsAdded s valid (rw size hs) in
        let b = adds-IsAdded t valid (rw size ht) in
        let (vg, mg, rg) =
          VanillaStreams.adds-new m small (s ++ t) (IsInRange-append m s t hs ht) in
        let (h, merged, joined) = merge-IsJoined laws a.valid b.valid (a.m ∙ sym b.m) in
        (
          h,
          merged,
          export_registers_agree joined.valid vg (joined.m ∙ a.m ∙ size ∙ sym mg) (λ j p. ground (
            arith,
            joined.m,
            a.m,
            size,
            joined.registers j,
            a.registers j,
            b.registers j,
            zeros j,
            rg j,
            max_rank-append s t j,
          )),
        )
