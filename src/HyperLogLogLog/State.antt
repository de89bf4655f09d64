-- ===== src/HyperLogLogLog/State.antt =====
-- The state of the sketch, its flags and its constructor.
use hyperlogloglog.Base.{
  ℕ, ◌-◌, ◌%◌, ◌^◌, Bool, true, false, not, ◌&&◌, ◌||◌, Option, none, some, bit_and, bit_or, ◌==◌,
  if◌then◌else◌, word_bits,
}
use hyperlogloglog.Common.{log2i}
use hyperlogloglog.PackedVector
use hyperlogloglog.PackedVector.{PackedVector}
use hyperlogloglog.PackedMap
use hyperlogloglog.PackedMap.{PackedMap}

abbrev pub when_always : ℕ
when_always = 0x1

abbrev pub when_append : ℕ
when_append = 0x2

abbrev pub type_full : ℕ
type_full = 0x4

abbrev pub type_increase : ℕ
type_increase = 0x8

abbrev pub bottom : ℕ
bottom = 0x10

-- `HYPERLOGLOGLOG_COMPRESS_DEFAULT`.
abbrev pub compress_default : ℕ
compress_default = bit_or when_always type_full

-- A flag as a condition.
abbrev pub has : ℕ → ℕ → Bool
has flags flag = not (bit_and flags flag == 0)

pub record HyperLogLogLog : Type 0 where
  pub m : ℕ
  pub log_m : ℕ
  pub m_bits : ℕ
  pub s_bits : ℕ
  pub flags : ℕ
  pub offsets : PackedVector
  pub sparse : PackedMap
  pub lower_bound : ℕ
  pub min_value_count : ℕ
  pub base : ℕ
  pub max_offset : ℕ
  pub compress_count : ℕ
  pub rebase_count : ℕ

-- The flags that the constructor adds to those it is given.
unfoldable pub complete_flags : ℕ → ℕ
complete_flags flags =
    let always =
      if flags == type_full || flags == type_increase then bit_or flags when_always else flags in
    if always == when_always || always == when_append then bit_or always type_full else always

unfoldable pub are_valid_flags : ℕ → Bool
are_valid_flags flags =
    if has flags bottom && not (flags == bottom)
    then false
    else if not (flags == bottom)
    then not (
        not (has flags type_full || has flags type_increase)
        || not (has flags when_always || has flags when_append))
    else true

-- What the constructor's initialisers make, with the flags that its body leaves.
unfoldable pub fresh : ℕ → ℕ → ℕ → HyperLogLogLog
fresh m m_bits flags = record {
  m = m;
  log_m = log2i m;
  m_bits = m_bits % 2 ^ 8;
  s_bits = log2i word_bits;
  flags = flags;
  offsets = PackedVector.new m_bits m;
  sparse = PackedMap.new (log2i m) (log2i word_bits);
  lower_bound = 0;
  min_value_count = m;
  base = 0;
  max_offset = (2 ^ m_bits - 1) % 2 ^ 8;
  compress_count = 0;
  rebase_count = 0;
}

unfoldable pub new : ℕ → ℕ → ℕ → Option HyperLogLogLog
new m m_bits flags =
    let flags' = complete_flags (flags % 2 ^ 8) in
    if not (m == 2 ^ log2i m)
    then none
    else if are_valid_flags flags'
    then some (fresh m m_bits flags')
    else none
