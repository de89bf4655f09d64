-- ===== src/HyperLogLog/Export.antt =====
-- `exportRegisters` lists the registers.
use hyperlogloglog.Base.{
  ℕ, zero, suc, ◌+◌, ◌%◌, ◌^◌, ◌<◌, ◌≡◌, refl, sym, ap, ◌∙◌, arith, length, get_or, get_or_ext,
}
use hyperlogloglog.PackedVector
use hyperlogloglog.PackedVector.{PackedVector}
use hyperlogloglog.HyperLogLog.{HyperLogLog, export_registers, export_from}
use hyperlogloglog.HyperLogLog.Add.{IsValid, register, register-lt}

length-export_from : (v : PackedVector) (rounds i : ℕ) → length (export_from v rounds i) ≡ rounds
unfolding export_from
length-export_from v zero i = refl
length-export_from v (suc rounds) i = ap suc (length-export_from v rounds (i + 1))

get_or-export_from :
    (v : PackedVector) (rounds i j : ℕ)
    → j < rounds
    → get_or (export_from v rounds i) j 0 ≡ PackedVector.get v (i + j) % 2 ^ 8
unfolding export_from
get_or-export_from v zero i j h = absurd (omega arith)
get_or-export_from v (suc rounds) i zero h = ap (λ k. PackedVector.get v k % 2 ^ 8) (omega arith)
get_or-export_from v (suc rounds) i (suc j) h =
    get_or-export_from v rounds (i + 1) j (omega arith)
    ∙ ap (λ k. PackedVector.get v k % 2 ^ 8) (omega arith)

-- `exportRegisters` gives `m` values.
pub length-export_registers : (h : HyperLogLog) → length (export_registers h) ≡ h.m
unfolding export_registers
length-export_registers h = length-export_from h.registers h.m 0

-- The value at an index is that register: the cast to 8 bits loses nothing.
pub get_or-export_registers :
    {h : HyperLogLog} (j : ℕ) → IsValid h → j < h.m → get_or (export_registers h) j 0 ≡ register h j
unfolding export_registers
get_or-export_registers {h} j valid hj = ground (
  arith,
  get_or-export_from h.registers h.m 0 j hj,
  register-lt j valid hj,
  ap (register h) {x = 0 + j} {y = j},
)

-- Two sketches with the same registers export the same list.
pub export_registers_ext :
    {g h : HyperLogLog}
    → IsValid g
    → IsValid h
    → g.m ≡ h.m
    → ((j : ℕ) → j < g.m → register g j ≡ register h j)
    → export_registers g ≡ export_registers h
export_registers_ext {g} {h} vg vh e same =
    get_or_ext 0 _ _ (length-export_registers g ∙ e ∙ sym (length-export_registers h)) λ j p.
      ground (
        arith,
        length-export_registers g,
        get_or-export_registers j vg,
        get_or-export_registers j vh,
        same j,
      )
