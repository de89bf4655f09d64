-- ===== src/HyperLogLogLog/Update.antt =====
-- `addJr` and the operations that call it, and the conversions from and to HyperLogLog.
use hyperlogloglog.Base.{
  ℕ, zero, suc, ◌+◌, ◌-◌, ◌%◌, ◌^◌, Bool, true, false, ◌&&◌, ◌||◌, Option, none, some, List, [],
  ◌∷◌, ltb, leb, ◌==◌, if◌then◌else◌,
}
use hyperlogloglog.Common.{rho}
use hyperlogloglog.PackedVector
use hyperlogloglog.PackedVector.{PackedVector}
use hyperlogloglog.PackedMap
use hyperlogloglog.PackedMap.{PackedMap}
use hyperlogloglog.HyperLogLog
use hyperlogloglog.HyperLogLog.{HyperLogLog}
use hyperlogloglog.HyperLogLogLog.State.{HyperLogLogLog, when_always, when_append, bottom, has, new}
use hyperlogloglog.HyperLogLogLog.Registers.{value_at, get, is_dense, place, iterate}
use hyperlogloglog.HyperLogLogLog.Compress.{compress}

-- `addJr` from the test `r0 < r` on, with the index in the sparse map and the old rank.
unfoldable pub update : HyperLogLogLog → ℕ → ℕ → Option ℕ → ℕ → HyperLogLogLog
update h j r idx r0 =
    let h' = place h h.base idx j r in
    if r0 == h.lower_bound
    then record h' { min_value_count = (h'.min_value_count + (2 ^ 32 - 1)) % 2 ^ 32 }
    else h'

-- Whether the pair goes to the sparse map under a new key.
unfoldable pub is_size_increased : HyperLogLogLog → ℕ → Option ℕ → Bool
is_size_increased h r idx =
    if is_dense h h.base r then false else elim idx [ some i ↦ false | none ↦ true ]

unfoldable pub add_jr : HyperLogLogLog → ℕ → ℕ → HyperLogLogLog
add_jr h j r =
    let idx = PackedMap.find h.sparse j in
    let r0 = value_at h h.base j in
    let updated = ltb r0 r in
    let h' = if updated then update h j r idx r0 else h in
    let increased = updated && is_size_increased h r idx in
    if leb r h.lower_bound
    then h
    else if (updated && has h'.flags when_always)
        || (increased && has h'.flags when_append)
        || (h'.min_value_count == 0 && h'.flags == bottom)
    then compress h'
    else h'

unfoldable pub add_hash : HyperLogLogLog → ℕ → (ℕ → ℕ → ℕ) → HyperLogLogLog
add_hash h x f = add_jr h (f x h.log_m) (rho x)

unfoldable pub add {ℓ} : {A : Type ℓ} → HyperLogLogLog → A → (A → ℕ) → (ℕ → ℕ → ℕ) → HyperLogLogLog
add h o hash f = add_hash h (hash o) f

unfoldable pub bit_size : HyperLogLogLog → ℕ
bit_size h = (PackedVector.bit_size h.offsets + PackedMap.bit_size h.sparse) % 2 ^ 64

-- The loop of `exportRegisters`, which casts each register to `uint8_t`.
unfoldable pub export_from : HyperLogLogLog → ℕ → ℕ → List ℕ
export_from h zero i = []
export_from h (suc rounds) i = (get h i % 2 ^ 8) ∷ export_from h rounds (i + 1)

unfoldable pub export_registers : HyperLogLogLog → List ℕ
unfolding export_from
export_registers h = export_from h h.m 0

unfoldable pub to_hyper_log_log : HyperLogLogLog → HyperLogLog
to_hyper_log_log h = iterate (λ j r g. HyperLogLog.add_jr g j r) h (HyperLogLog.new h.m)

-- The loop of `fromHyperLogLog`.
unfoldable pub add_registers : List ℕ → ℕ → HyperLogLogLog → HyperLogLogLog
add_registers [] j h = h
add_registers (r ∷ rs) j h = add_registers rs (j + 1) (add_jr h j r)

unfoldable pub from_hyper_log_log : HyperLogLog → ℕ → ℕ → Option HyperLogLogLog
from_hyper_log_log g m_bits flags = elim (new g.m m_bits flags) [
  | none ↦ none
  | some h ↦ some (add_registers (HyperLogLog.export_registers g) 0 h)
]
