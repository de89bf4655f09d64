-- ===== src/HyperLogLog/Add.antt =====
-- The invariant of a sketch, and `addJr`: a register keeps the greatest rank.
use hyperlogloglog.Base.{
  ℕ, ◌%◌, ◌^◌, ◌<◌, ◌≡◌, refl, ap, ◌∙◌, arith, max, ltb, ◌==◌, if◌then◌else◌, Bool-cases, inl, inr,
}
use hyperlogloglog.Common.{log2i}
use hyperlogloglog.Common.Log.{log2i-pow}
use hyperlogloglog.PackedVector
use hyperlogloglog.PackedVector.Valid
use hyperlogloglog.PackedVector.Elements.{
  get-lt, get-set_at, get-new, size-set_at, elem_size-set_at,
}
use hyperlogloglog.HyperLogLog.{HyperLogLog, new, add_jr}

-- The value of a register.
abbrev pub register : HyperLogLog → ℕ → ℕ
register h j = PackedVector.get h.registers j

pub record IsValid (h : HyperLogLog) : Type 0 where
  pub vector : Valid.IsValid h.m h.registers
  pub count : h.registers.size ≡ h.m
  pub width : h.registers.elem_size ≡ 6
  pub small : h.m < 2 ^ 31

log2i_word_bits : log2i 64 ≡ 6
log2i_word_bits = log2i-pow 6

pub new-IsValid : (m : ℕ) → m < 2 ^ 31 → IsValid (new m)
unfolding new PackedVector.new
new-IsValid m small = record {
  vector =
      rw log2i_word_bits
        (Valid.new-IsValid m 6 m (omega arith) (omega arith) (omega arith) (omega arith));
  count = refl;
  width = log2i_word_bits;
  small = small;
}

-- A register is below 64.
pub register-lt : {h : HyperLogLog} (j : ℕ) → IsValid h → j < h.m → register h j < 64
register-lt {h} j valid hj =
    omega
      (arith, get-lt j valid.vector (omega (arith, valid.count)), ap (λ (e : ℕ). 2 ^ e) valid.width)

-- A new sketch has only registers of 0.
pub register-new : (m j : ℕ) → m < 2 ^ 31 → j < m → register (new m) j ≡ 0
unfolding new PackedVector.new
register-new m j small hj =
    let valid : Valid.IsValid m (PackedVector.new (log2i 64) m) = (new-IsValid m small).vector in
    get-new m (log2i 64) m j valid hj

-- The rank as the register holds it.
abbrev pub kept : ℕ → ℕ → ℕ
kept old r = if ltb old r then r % 64 else old

pub m-add_jr : (h : HyperLogLog) (j r : ℕ) → (add_jr h j r).m ≡ h.m
unfolding add_jr
m-add_jr h j r = ground arith

pub log_m-add_jr : (h : HyperLogLog) (j r : ℕ) → (add_jr h j r).log_m ≡ h.log_m
unfolding add_jr
log_m-add_jr h j r = ground arith

module _ {h : HyperLogLog} (j r : ℕ) (valid : IsValid h) (hj : j < h.m) where
  in_size : (k : ℕ) → k < h.m → k < h.registers.size
  in_size k hk = omega (arith, valid.count)

  set-IsValid : IsValid (record h { registers = PackedVector.set_at h.registers j r })
  set-IsValid = record {
    vector = Valid.set_at-IsValid j r valid.vector (in_size j hj);
    count = size-set_at h.registers j r ∙ valid.count;
    width = elem_size-set_at h.registers j r ∙ valid.width;
    small = valid.small;
  }

  -- `addJr` at an index below `m` keeps the invariant, whatever the rank.
  pub add_jr-IsValid : IsValid (add_jr h j r)
  unfolding add_jr
  add_jr-IsValid = elim (Bool-cases (ltb (register h j) r)) [
    | inl e ↦ rw e set-IsValid
    | inr e ↦ rw e valid
  ]

  -- In a valid sketch, `addJr` at an index below `m`, with any rank, stores the rank cut to 6
  -- bits at the index if the rank is greater than the register, and changes no other register
  -- below `m`.
  pub register-add_jr :
      (k : ℕ)
      → k < h.m
      → register (add_jr h j r) k ≡ (if j == k then kept (register h j) r else register h k)
  unfolding add_jr
  register-add_jr k hk = ground (
    arith,
    get-set_at j k r valid.vector (in_size j hj) (in_size k hk),
    ap (λ (e : ℕ). r % 2 ^ e) valid.width,
    ap (register h) {x = j} {y = k},
  )

  -- With a rank below 64, the register at the index becomes the greater of the two.
  pub register-add_jr-max :
      (k : ℕ)
      → r < 64
      → k < h.m
      → register (add_jr h j r) k ≡ (if j == k then max r (register h k) else register h k)
  register-add_jr-max k hr hk =
      register-add_jr k hk ∙ ground (arith, ap (register h) {x = j} {y = k})
