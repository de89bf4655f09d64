-- ===== src/HyperLogLog.antt =====
-- hyperlogloglog/HyperLogLog.hpp, for `Word = uint64_t`: `m` registers of 6 bits in a packed
-- vector. An `int` that counts registers stays below 2 ^ 31, as `m` is one. The exception of
-- `merge` is `none`.
pub mod Add
pub mod Export
pub mod Merge
pub mod Streams
pub mod Estimate
use hyperlogloglog.Base.{
  ℕ, zero, suc, ◌+◌, ◌%◌, ◌^◌, Bool, Option, none, some, List, [], ◌∷◌, max, ltb, ◌==◌,
  if◌then◌else◌, word_bits,
}
use hyperlogloglog.Common.{log2i, rho}
use hyperlogloglog.PackedVector
use hyperlogloglog.PackedVector.{PackedVector}

pub record HyperLogLog : Type 0 where
  pub m : ℕ
  pub log_w : ℕ
  pub log_m : ℕ
  pub registers : PackedVector

unfoldable pub new : ℕ → HyperLogLog
new m = record {
  m = m;
  log_w = log2i word_bits;
  log_m = log2i m;
  registers = PackedVector.new (log2i word_bits) m;
}

unfoldable pub bit_size : HyperLogLog → ℕ
bit_size h = PackedVector.bit_size h.registers

unfoldable pub add_jr : HyperLogLog → ℕ → ℕ → HyperLogLog
add_jr h j r =
    if ltb (PackedVector.get h.registers j) r
    then record h { registers = PackedVector.set_at h.registers j r }
    else h

-- `f` is the hash of a hash to an index.
unfoldable pub add_hash : HyperLogLog → ℕ → (ℕ → ℕ → ℕ) → HyperLogLog
add_hash h x f = add_jr h (f x h.log_m) (rho x)

unfoldable pub add {ℓ} : {A : Type ℓ} → HyperLogLog → A → (A → ℕ) → (ℕ → ℕ → ℕ) → HyperLogLog
add h o hash f = add_hash h (hash o) f

-- The loop over the registers, from `i` on, with the rounds that are left. A register is cast to
-- `uint8_t`.
unfoldable pub export_from : PackedVector → ℕ → ℕ → List ℕ
export_from v zero i = []
export_from v (suc rounds) i = (PackedVector.get v i % 2 ^ 8) ∷ export_from v rounds (i + 1)

unfoldable pub export_registers : HyperLogLog → List ℕ
unfolding export_from
export_registers h = export_from h.registers h.m 0

-- The loop of `merge`, which writes the registers of `result`.
unfoldable pub merge_from : PackedVector → PackedVector → ℕ → ℕ → PackedVector → PackedVector
merge_from a b zero j result = result
merge_from a b (suc rounds) j result =
    merge_from a b rounds (j + 1)
      (PackedVector.set_at result j (max (PackedVector.get a j) (PackedVector.get b j)))

unfoldable pub merge : HyperLogLog → HyperLogLog → Option HyperLogLog
unfolding merge_from
merge a b =
    let h = new a.m in
    if a.m == b.m
    then some (record h { registers = merge_from a.registers b.registers a.m 0 h.registers })
    else none

abbrev pub get_m : HyperLogLog → ℕ
get_m h = h.m
