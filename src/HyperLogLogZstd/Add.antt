-- ===== src/HyperLogLogZstd/Add.antt =====
-- `addJr`, `exportRegisters` and `merge` on the registers.
use hyperlogloglog.Base.{
  ℕ, zero, suc, ◌+◌, ◌%◌, ◌^◌, ◌≤◌, ◌<◌, ◌≡◌, refl, ap, ◌∙◌, arith, true, some, List, max, ltb, leb,
  ◌==◌, ◌&&◌, if◌then◌else◌, Bool-cases, inl, inr, length, get_or, set, take_all, length-set,
  get_or-set,
}
use hyperlogloglog.HyperLogLogZstd.{
  Zstd, IsLossless, HyperLogLogZstd, word_of_char, max_char, compress, new, add_jr,
  export_registers, merge_from, merge,
}
use hyperlogloglog.HyperLogLogZstd.Valid.{
  IsValid, register, compress-IsValid, decompress-same, temp-compress, m-compress, new-IsValid,
}

-- `h'` is `h` with the register at `j` raised to `r`.
pub record IsRaised (z : Zstd) (h : HyperLogLogZstd) (j r : ℕ) (h' : HyperLogLogZstd) : Type 0 where
  pub valid : IsValid z h'
  pub m : h'.m ≡ h.m
  pub registers :
      (k : ℕ) → k < h.m → register h' k ≡ (if j == k then max r (register h k) else register h k)

pub record IsJoined (z : Zstd) (a b h : HyperLogLogZstd) : Type 0 where
  pub valid : IsValid z h
  pub m : h.m ≡ a.m
  pub registers : (j : ℕ) → j < a.m → register h j ≡ max (register a j) (register b j)

module _ {z : Zstd} (laws : IsLossless z) where
  module _ {h : HyperLogLogZstd} (j r : ℕ) (valid : IsValid z h) (hj : j < h.m) (hr : r < 128) where
    written : HyperLogLogZstd
    written = record h { temp = set h.temp j (r % 2 ^ 8) }

    get-written : (k : ℕ) → register written k ≡ (if j == k then r else register h k)
    unfolding written
    get-written k = ground (arith, get_or-set h.temp j k (r % 2 ^ 8) 0, valid.count)

    stored : (ltb (register h j) r ≡ true) → IsRaised z h j r (compress z written)
    unfolding written
    stored up = record {
      valid =
          compress-IsValid laws written (length-set h.temp j (r % 2 ^ 8) ∙ valid.count)
            (λ k. ground (arith, get-written k, valid.small k)) valid.room;
      m = m-compress laws written;
      registers = λ k p.
          ap (λ t. get_or t k 0) (temp-compress laws written)
          ∙ ground (arith, get-written k, up, ap (register h) {x = j} {y = k});
    }

    unchanged : r ≤ register h j → IsRaised z h j r h
    unchanged le = record {
      valid = valid;
      m = refl;
      registers = λ k p. ground (arith, ap (register h) {x = j} {y = k});
    }

    -- With a lossless zstd, in a valid compressed sketch, with an index below `m` and a rank
    -- below 128, `addJr` gives a valid sketch of as many registers in which the register at the
    -- index is the greater of the rank and what it was, and every other register is as it was.
    pub zstd_add_jr-IsRaised : IsRaised z h j r (add_jr z h j r)
    unfolding add_jr written
    zstd_add_jr-IsRaised =
        rw (decompress-same laws valid) (elim (Bool-cases (ltb r h.lower_bound)) [
          | inl low ↦ rw low (unchanged (ground (arith, valid.lower j hj)))
          | inr high ↦ rw high (elim (Bool-cases (ltb (word_of_char (register h j)) r)) [
            | inl up ↦ rw up (stored (ground (arith, valid.small j)))
            | inr down ↦ rw down (unchanged (ground (arith, valid.small j)))
          ])
        ])

  -- `exportRegisters` gives the buffer and leaves the sketch as it is.
  pub export_registers-temp :
      {h : HyperLogLogZstd} → IsValid z h → export_registers z h ≡ (h.temp, h)
  unfolding export_registers
  export_registers-temp {h} valid =
      rw (decompress-same laws valid)
        (ap (λ t. (t, h)) (take_all h.m h.temp (omega (arith, valid.count))))

  length-merge_from :
      (a b : List ℕ) (rounds j : ℕ) (result : List ℕ)
      → length (merge_from z a b rounds j result) ≡ length result
  unfolding merge_from
  length-merge_from a b zero j result = refl
  length-merge_from a b (suc rounds) j result =
      length-merge_from a b rounds (j + 1) _ ∙ length-set result j _

  get_or-merge_from :
      (a b : List ℕ) (rounds j k : ℕ) (result : List ℕ)
      → j + rounds ≤ length result
      → get_or (merge_from z a b rounds j result) k 0 ≡ (
          if leb j k && ltb k (j + rounds)
          then max_char (get_or a k 0) (get_or b k 0)
          else get_or result k 0)
  unfolding merge_from
  get_or-merge_from a b zero j k result le = ground arith
  get_or-merge_from a b (suc rounds) j k result le =
      let x = max_char (get_or a j 0) (get_or b j 0) in
      get_or-merge_from a b rounds (j + 1) k (set result j x) (omega (arith, length-set result j x))
      ∙ ground (
        arith,
        get_or-set result j k x 0,
        ap (λ i. max_char (get_or a i 0) (get_or b i 0)) {x = j} {y = k},
      )

  pub merge-IsJoined :
      {a b : HyperLogLogZstd}
      → IsValid z a
      → IsValid z b
      → a.m ≡ b.m
      → (h : HyperLogLogZstd) × (merge z a b ≡ some (a, b, h)) × IsJoined z a b h
  unfolding merge
  merge-IsJoined {a} {b} va vb same =
      let (start, size, zeros) = new-IsValid laws a.m in
      let h₀ = new z a.m in
      let temp = merge_from z a.temp b.temp a.m 0 h₀.temp in
      let h : HyperLogLogZstd = record h₀ { temp = temp } in
      let each : (j : ℕ)
          → get_or temp j 0 ≡ (if ltb j a.m then max (register a j) (register b j) else 0) =
        λ j.
          get_or-merge_from a.temp b.temp a.m 0 j h₀.temp (omega (arith, start.count))
          ∙ ground (arith, zeros j, va.small j, vb.small j) in
      rw (decompress-same laws va, decompress-same laws vb)
        (
          compress z h,
          ground arith,
          record {
            valid =
                compress-IsValid laws h
                  (length-merge_from a.temp b.temp a.m 0 h₀.temp ∙ start.count)
                  (λ j. ground (arith, each j, va.small j, vb.small j)) start.room;
            m = m-compress laws h ∙ size;
            registers =
                λ j p. ap (λ t. get_or t j 0) (temp-compress laws h) ∙ ground (arith, each j);
          },
        )
