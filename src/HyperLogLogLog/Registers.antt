-- ===== src/HyperLogLogLog/Registers.antt =====
-- Reading and storing registers: `get`, `iterate` and `rebase`.
use hyperlogloglog.Base.{
  ℕ, zero, suc, ◌+◌, ◌-◌, ◌%◌, ◌^◌, Bool, ◌&&◌, Option, none, some, ltb, leb, if◌then◌else◌,
}
use hyperlogloglog.PackedVector
use hyperlogloglog.PackedVector.{PackedVector}
use hyperlogloglog.PackedMap
use hyperlogloglog.PackedMap.{PackedMap}
use hyperlogloglog.HyperLogLogLog.State.{HyperLogLogLog}

-- The register at `j` when the offsets are read above `base`.
unfoldable pub value_at : HyperLogLogLog → ℕ → ℕ → ℕ
value_at h base j = elim (PackedMap.find h.sparse j) [
  | some i ↦ PackedMap.at h.sparse i
  | none ↦ PackedVector.get h.offsets j + base
]

unfoldable pub get : HyperLogLogLog → ℕ → ℕ
unfolding value_at
get h j = value_at h h.base j

-- Whether `r` is an offset from `base`.
abbrev pub is_dense : HyperLogLogLog → ℕ → ℕ → Bool
is_dense h base r = leb base r && leb r (base + h.max_offset)

-- Stores `r` as the register at `j`, which stands in the sparse map at `idx` or not at all.
unfoldable pub place : HyperLogLogLog → ℕ → Option ℕ → ℕ → ℕ → HyperLogLogLog
place h base idx j r =
    if is_dense h base r
    then record h {
      offsets = PackedVector.set_at h.offsets j (r - base);
      sparse = elim idx [ some i ↦ PackedMap.erase_at h.sparse i | none ↦ h.sparse ];
    }
    else record h { sparse = PackedMap.add h.sparse j r }

-- The loop of `rebase`, with the rounds that are left.
unfoldable pub rebase_from : ℕ → ℕ → ℕ → HyperLogLogLog → HyperLogLogLog
unfolding value_at place
rebase_from new_base zero i h = h
rebase_from new_base (suc rounds) i h =
    rebase_from new_base rounds (i + 1)
      (place h new_base (PackedMap.find h.sparse i) i (value_at h h.base i))

unfoldable pub rebase : HyperLogLogLog → ℕ → HyperLogLogLog
unfolding rebase_from
rebase h new_base =
    let h' = rebase_from new_base h.m 0 h in
    record h' { base = new_base; rebase_count = (h'.rebase_count + 1) % 2 ^ 32 }

-- The inner loop of `iterate` over the dense registers from `j` on.
unfoldable pub walk {ℓ} : {A : Type ℓ} → (ℕ → ℕ → A → A) → HyperLogLogLog → ℕ → ℕ → A → A
walk f h zero j a = a
walk f h (suc rounds) j a = walk f h rounds (j + 1) (f j (PackedVector.get h.offsets j + h.base) a)

-- The loop of `iterate` over the sparse map, and the loop behind it.
unfoldable pub iterate_from {ℓ} :
    {A : Type ℓ} → (ℕ → ℕ → A → A) → HyperLogLogLog → ℕ → ℕ → ℕ → A → A
unfolding walk
iterate_from f h zero i j a = walk f h (h.m - j) j a
iterate_from f h (suc rounds) i j a =
    let k = PackedMap.key_at h.sparse i in
    let j' = if ltb j k then k else j in
    iterate_from f h rounds (i + 1) (j' + 1) (f j' (PackedMap.at h.sparse i) (walk f h (k - j) j a))

-- `iterate`: `f` runs on every register, with what it changes passed on.
unfoldable pub iterate {ℓ} : {A : Type ℓ} → (ℕ → ℕ → A → A) → HyperLogLogLog → A → A
unfolding iterate_from
iterate f h a = iterate_from f h (PackedMap.size h.sparse) 0 0 a
