-- ===== src/HyperLogLogLog/Streams.antt =====
-- The refinement: after any stream, a HyperLogLogLog has the registers of a HyperLogLog.
use hyperlogloglog.Base.{
  ℕ, zero, suc, ◌+◌, ◌%◌, ◌^◌, ◌≤◌, ◌<◌, ◌≡◌, refl, sym, ap, ◌∙◌, arith, some, max, [], ◌∷◌, length,
  get_or, get_or_ext,
}
use hyperlogloglog.Registers.{Stream, max_rank, IsInRange}
use hyperlogloglog.HyperLogLog
use hyperlogloglog.HyperLogLog.{HyperLogLog}
use hyperlogloglog.HyperLogLog.Add as Vanilla
use hyperlogloglog.HyperLogLog.Export
use hyperlogloglog.HyperLogLog.Streams as VanillaStreams
use hyperlogloglog.HyperLogLogLog.State.{HyperLogLogLog, new}
use hyperlogloglog.HyperLogLogLog.Registers.{get}
use hyperlogloglog.HyperLogLogLog.Update.{add_jr, export_from, export_registers}
use hyperlogloglog.HyperLogLogLog.Rebase.{IsValid}
use hyperlogloglog.HyperLogLogLog.Tight.{IsTight}
use hyperlogloglog.HyperLogLogLog.Refine.{add_jr-IsRaised}
use hyperlogloglog.HyperLogLogLog.New.{new-IsValid}

-- `for (const pair<int,int>& o : v) h.addJr(o.first, o.second);`
unfoldable pub adds : HyperLogLogLog → Stream → HyperLogLogLog
adds h [] = h
adds h ((j, r) ∷ s) = adds (add_jr h j r) s

-- A sketch after a stream: valid, of the same size, with the greatest rank at each index, and
-- tight if it was.
pub record IsAdded (h : HyperLogLogLog) (s : Stream) (h' : HyperLogLogLog) : Type 0 where
  pub valid : IsValid h'
  pub m : h'.m ≡ h.m
  pub registers : (j : ℕ) → j < h.m → get h' j ≡ max (max_rank s j) (get h j)
  pub tight : IsTight h → IsTight h'

pub adds-IsAdded :
    (s : Stream) {h : HyperLogLogLog} → IsValid h → IsInRange h.m s → IsAdded h s (adds h s)
unfolding adds max_rank
adds-IsAdded [] valid range = record {
  valid = valid;
  m = refl;
  registers = λ j hj. omega arith;
  tight = λ x. x;
}
adds-IsAdded ((i, r) ∷ s) {h} valid range =
    let one = add_jr-IsRaised i r valid range.0 range.1 in
    let rest = adds-IsAdded s one.valid (rw one.m range.2) in
    record {
      valid = rest.valid;
      m = rest.m ∙ one.m;
      registers = λ j hj. ground (arith, rest.registers j, one.m, one.registers j hj);
      tight = λ x. rest.tight (one.tight x);
    }

-- `exportRegisters` lists the registers.
length-export_from : (h : HyperLogLogLog) (rounds i : ℕ) → length (export_from h rounds i) ≡ rounds
unfolding export_from
length-export_from h zero i = refl
length-export_from h (suc rounds) i = ap suc (length-export_from h rounds (i + 1))

get_or-export_from :
    (h : HyperLogLogLog) (rounds i j : ℕ)
    → j < rounds
    → get_or (export_from h rounds i) j 0 ≡ get h (i + j) % 2 ^ 8
unfolding export_from
get_or-export_from h zero i j p = absurd (omega arith)
get_or-export_from h (suc rounds) i zero p = ap (λ k. get h k % 2 ^ 8) (omega arith)
get_or-export_from h (suc rounds) i (suc j) p =
    get_or-export_from h rounds (i + 1) j (omega arith) ∙ ap (λ k. get h k % 2 ^ 8) (omega arith)

pub length-export_registers : (h : HyperLogLogLog) → length (export_registers h) ≡ h.m
unfolding export_registers
length-export_registers h = length-export_from h h.m 0

pub get_or-export_registers :
    {h : HyperLogLogLog} (j : ℕ) → IsValid h → j < h.m → get_or (export_registers h) j 0 ≡ get h j
unfolding export_registers
get_or-export_registers {h} j valid hj =
    ground
      (arith, get_or-export_from h h.m 0 j hj, valid.ranks j hj, ap (get h) {x = 0 + j} {y = j})

-- A HyperLogLogLog with the registers of a HyperLogLog exports the same list.
pub export_registers_agree :
    {h : HyperLogLogLog} {g : HyperLogLog}
    → IsValid h
    → Vanilla.IsValid g
    → h.m ≡ g.m
    → ((j : ℕ) → j < h.m → get h j ≡ Vanilla.register g j)
    → export_registers h ≡ HyperLogLog.export_registers g
export_registers_agree {h} {g} vh vg e same =
    get_or_ext 0 _ _ (length-export_registers h ∙ e ∙ sym (Export.length-export_registers g)) λ j p.
      ground (
        arith,
        length-export_registers h,
        get_or-export_registers j vh,
        Export.get_or-export_registers j vg,
        same j,
      )

-- Take flags that the constructor accepts, `m` at most 2 ^ 30 registers, offsets of 1 to 8
-- bits, and a stream whose indices are below `m` and whose ranks are below 64. After the
-- stream, however the HyperLogLogLog has compressed, it exports the same registers as a
-- HyperLogLog of `m` registers after the same stream.
pub adds_refines :
    (m m_bits flags : ℕ) {h : HyperLogLogLog} (s : Stream)
    → m ≤ 2 ^ 30
    → 0 < m_bits
    → m_bits ≤ 8
    → new m m_bits flags ≡ some h
    → IsInRange m s
    → export_registers (adds h s)
      ≡ HyperLogLog.export_registers (VanillaStreams.adds (HyperLogLog.new m) s)
adds_refines m m_bits flags {h} s small pos le e range =
    let (valid, size, zeros) = new-IsValid m m_bits flags small pos le e in
    let after = adds-IsAdded s valid (rw size range) in
    let (vg, mg, rg) = VanillaStreams.adds-new m (omega arith) s range in
    export_registers_agree after.valid vg (after.m ∙ size ∙ sym mg)
      (λ j p. ground (arith, after.m, size, after.registers j, zeros j, rg j))
