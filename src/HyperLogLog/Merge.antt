-- ===== src/HyperLogLog/Merge.antt =====
-- `merge` takes the greater of each two registers.
use hyperlogloglog.Base.{
  ℕ, zero, suc, ◌+◌, ◌%◌, ◌^◌, ◌≤◌, ◌<◌, ◌≡◌, ◌≢◌, refl, sym, ap, ◌∙◌, arith, none, some, max, ltb,
  leb, ◌&&◌, if◌then◌else◌,
}
use hyperlogloglog.PackedVector
use hyperlogloglog.PackedVector.{PackedVector}
use hyperlogloglog.PackedVector.Valid
use hyperlogloglog.PackedVector.Shifts.{SameShape, SameShape-trans, set_at-SameShape}
use hyperlogloglog.PackedVector.Elements.{get-set_at}
use hyperlogloglog.HyperLogLog.{HyperLogLog, new, merge, merge_from}
use hyperlogloglog.HyperLogLog.Add.{IsValid, new-IsValid, register, register-lt}

merge_from-SameShape :
    {limit : ℕ} (a b : PackedVector) (rounds j : ℕ) {v : PackedVector}
    → Valid.IsValid limit v
    → j + rounds ≤ v.size
    → SameShape limit v (merge_from a b rounds j v)
unfolding merge_from
merge_from-SameShape a b zero j valid h = record { valid = valid; size = refl; elem_size = refl }
merge_from-SameShape a b (suc rounds) j {v} valid h =
    let step =
      set_at-SameShape j (max (PackedVector.get a j) (PackedVector.get b j)) valid (omega arith) in
    SameShape-trans step
      (merge_from-SameShape a b rounds (j + 1) step.valid (rw step.size (omega arith)))

get-merge_from :
    {limit : ℕ} (a b : PackedVector) (rounds j k : ℕ) {v : PackedVector}
    → Valid.IsValid limit v
    → j + rounds ≤ v.size
    → k < v.size
    → PackedVector.get (merge_from a b rounds j v) k ≡ (
        if leb j k && ltb k (j + rounds)
        then max (PackedVector.get a k) (PackedVector.get b k) % 2 ^ v.elem_size
        else PackedVector.get v k)
unfolding merge_from
get-merge_from a b zero j k valid h hk = ground arith
get-merge_from a b (suc rounds) j k {v} valid h hk =
    let x = max (PackedVector.get a j) (PackedVector.get b j) in
    let step = set_at-SameShape j x valid (omega arith) in
    get-merge_from a b rounds (j + 1) k step.valid (rw step.size (omega arith)) (rw step.size hk)
    ∙ ground (
      arith,
      step.elem_size,
      get-set_at j k x valid (omega arith) hk,
      ap (PackedVector.get a) {x = j} {y = k},
      ap (PackedVector.get b) {x = j} {y = k},
    )

-- What a merge of `a` and `b` returns.
pub record IsMerged (a b h : HyperLogLog) : Type 0 where
  pub valid : IsValid h
  pub m : h.m ≡ a.m
  pub log_m : h.log_m ≡ (new a.m).log_m
  pub registers : (j : ℕ) → j < a.m → register h j ≡ max (register a j) (register b j)

module _ {a b : HyperLogLog} (va : IsValid a) (vb : IsValid b) where
  abbrev written : PackedVector
  written = merge_from a.registers b.registers a.m 0 (new a.m).registers

  start : IsValid (new a.m)
  start = new-IsValid a.m va.small

  m-new : (new a.m).m ≡ a.m
  unfolding new
  m-new = refl

  shape : SameShape a.m (new a.m).registers written
  shape =
      merge_from-SameShape a.registers b.registers a.m 0 (rw m-new at start.vector)
        (omega (arith, start.count, m-new))

  written-max :
      (j : ℕ) → j < a.m → b.m ≡ a.m → PackedVector.get written j ≡ max (register a j) (register b j)
  written-max j hj same = ground (
    arith,
    get-merge_from a.registers b.registers a.m 0 j {v = (new a.m).registers}
        (rw m-new at start.vector) (omega (arith, start.count, m-new))
        (omega (arith, start.count, m-new)),
    start.width,
    register-lt j va hj,
    register-lt j vb (omega arith),
    ap (λ (e : ℕ). max (register a j) (register b j) % 2 ^ e) start.width,
  )

  -- Two valid sketches with as many registers merge into a valid sketch with as many registers,
  -- each the greater of the two.
  pub merge-IsMerged : a.m ≡ b.m → (h : HyperLogLog) × (merge a b ≡ some h) × IsMerged a b h
  merge-IsMerged same = (
    record (new a.m) { registers = written },
    unfold merge in ground arith,
    record {
      valid = record {
        vector = rw m-new shape.valid;
        count = shape.size ∙ start.count;
        width = shape.elem_size ∙ start.width;
        small = start.small;
      };
      m = m-new;
      log_m = refl;
      registers = λ j p. written-max j p (sym same);
    },
  )

-- Sketches with different numbers of registers do not merge.
pub merge_mismatch : (a b : HyperLogLog) → a.m ≢ b.m → merge a b ≡ none
unfolding merge
merge_mismatch a b ne = ground arith
