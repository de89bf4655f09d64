-- ===== src/Measure/RepresentZstd.antt =====
-- The compressed sketch does what the benchmark asks of a sketch class.
use hyperlogloglog.Base.{
  ℕ, zero, suc, ◌+◌, ◌^◌, ◌<◌, ◌≡◌, refl, sym, ap, ◌∙◌, arith, none, some, List, max, get_or,
}
use hyperlogloglog.Base.Tables.{tabulate_from, tabulate}
use hyperlogloglog.Common.{log2i, rho, fibonacci_hash}
use hyperlogloglog.Estimate.{Floats, Sum, start, tally, finish, tally_list, estimate_list}
use hyperlogloglog.HyperLogLogZstd
use hyperlogloglog.HyperLogLogZstd.{Zstd, IsLossless, HyperLogLogZstd, word_of_char}
use hyperlogloglog.HyperLogLogZstd.Valid.{IsValid, register, new-IsValid, decompress-same}
use hyperlogloglog.HyperLogLogZstd.Add.{zstd_add_jr-IsRaised, merge-IsJoined}
use hyperlogloglog.Measure.Laws.{raised, IsSketch}
use hyperlogloglog.Measure.Sketches.{hyper_log_log_zstd}

pub record HasRegisters (z : Zstd) (m : ℕ) (g : ℕ → ℕ) (h : HyperLogLogZstd) : Type 0 where
  pub valid : IsValid z h
  pub size : h.m ≡ m
  pub log_m : h.log_m ≡ log2i m
  pub values : (j : ℕ) → j < m → register h j ≡ g j

module _ {z : Zstd} (laws : IsLossless z) where
  -- No operation changes the logarithm of the number of registers.
  log_m-add_jr : (h : HyperLogLogZstd) (j r : ℕ) → (HyperLogLogZstd.add_jr z h j r).log_m ≡ h.log_m
  unfolding HyperLogLogZstd.add_jr HyperLogLogZstd.compress HyperLogLogZstd.decompress
  log_m-add_jr h j r = ground arith

  pub log_m-new : (m : ℕ) → (HyperLogLogZstd.new z m).log_m ≡ log2i m
  unfolding HyperLogLogZstd.new HyperLogLogZstd.compress
  log_m-new m = refl

  log_m-merge :
      (a b a' b' h : HyperLogLogZstd)
      → HyperLogLogZstd.merge z a b ≡ some (a', b', h)
      → h.log_m ≡ log2i a.m
  unfolding HyperLogLogZstd.merge HyperLogLogZstd.new HyperLogLogZstd.compress
  log_m-merge a b a' b' h e = ground (arith, e)

  pub add_jr-HasRegisters :
      (m j r : ℕ) (g : ℕ → ℕ) (h : HyperLogLogZstd)
      → HasRegisters z m g h
      → j < m
      → r < 64
      → HasRegisters z m (raised g j r) (HyperLogLogZstd.add_jr z h j r)
  add_jr-HasRegisters m j r g h has hj hr =
      let one = zstd_add_jr-IsRaised laws j r has.valid (omega (arith, has.size)) (omega arith) in
      record {
        valid = one.valid;
        size = one.m ∙ has.size;
        log_m = log_m-add_jr h j r ∙ has.log_m;
        values = λ k p. ground (arith, one.registers k, has.size, has.values k p);
      }

  merge-HasRegisters :
      (m : ℕ) (f g : ℕ → ℕ) (a b : HyperLogLogZstd)
      → HasRegisters z m f a
      → HasRegisters z m g b
      → (h : HyperLogLogZstd) × (HyperLogLogZstd.merge z a b ≡ some (a, b, h))
        × HasRegisters z m (λ j. max (f j) (g j)) h
  merge-HasRegisters m f g a b ha hb =
      let (h, e, joined) = merge-IsJoined laws ha.valid hb.valid (ha.size ∙ sym hb.size) in
      (
        h,
        e,
        record {
          valid = joined.valid;
          size = joined.m ∙ ha.size;
          log_m = log_m-merge a b a b h e ∙ ap log2i ha.size;
          values = λ j p. ground (arith, joined.registers j, ha.size, ha.values j p, hb.values j p);
        },
      )

module _ {ℓ} {F : Type ℓ} (d : Floats F) where
  tally_from-table :
      (z : Zstd) (temp : List ℕ) (g : ℕ → ℕ) (rounds j : ℕ) (s : Sum F)
      → ((i : ℕ) → get_or temp i 0 < 128)
      → ((i : ℕ) → i < j + rounds → get_or temp i 0 ≡ g i)
      → HyperLogLogZstd.tally_from z d temp rounds j s ≡ tally_list d (tabulate_from g rounds j) s
  unfolding HyperLogLogZstd.tally_from tally_list tabulate_from
  tally_from-table z temp g zero j s small same = refl
  tally_from-table z temp g (suc rounds) j s small same =
      let whole : word_of_char (get_or temp j 0) ≡ g j = ground (arith, small j, same j) in
      rw whole (
        tally_from-table z temp g rounds (j + 1) (tally d (g j) s) small
          (λ i p. same i (omega arith)))

  module _ {z : Zstd} (laws : IsLossless z) where
    pub estimate-HasRegisters :
        (m : ℕ) (g : ℕ → ℕ) (h : HyperLogLogZstd)
        → HasRegisters z m g h
        → (HyperLogLogZstd.estimate z d h).0 ≡ estimate_list d m (tabulate g m)
    unfolding HyperLogLogZstd.estimate estimate_list tabulate
    estimate-HasRegisters m g h has =
        rw (decompress-same laws has.valid, has.size)
          (ap (finish d m) (
            tally_from-table z h.temp g m 0 (start d) has.valid.small
              (λ i p. has.values i (omega arith))))

    -- HyperLogLogZstd, with a lossless zstd.
    pub hyper_log_log_zstd-IsSketch : IsSketch d (hyper_log_log_zstd d z)
    unfolding HyperLogLogZstd.add HyperLogLogZstd.add_hash
    hyper_log_log_zstd-IsSketch = record {
      Represents = λ m flags g h. HasRegisters z m g h;
      construct-Represents = λ k flags le accepted.
          let (valid, size, zeros) = new-IsValid laws (2 ^ k) in
          (
            HyperLogLogZstd.new z (2 ^ k),
            refl,
            record {
              valid = valid;
              size = size;
              log_m = log_m-new laws (2 ^ k);
              values = λ j p. zeros j;
            },
          );
      add_jr-Represents = λ m flags j r g h has hj hr.
          (HyperLogLogZstd.add_jr z h j r, refl, add_jr-HasRegisters laws m j r g h has hj hr);
      add-eq-add_jr = λ m flags x g h has.
          ap (λ b. some (HyperLogLogZstd.add_jr z h (fibonacci_hash x b) (rho x))) has.log_m;
      merge-Represents = λ m flags f g a b ha hb.
          let (h, e, has) = merge-HasRegisters laws m f g a b ha hb in
          (h, ap (λ o. elim o [ none ↦ none | some (a', b', c) ↦ some c ]) e, has);
      Represents_ext = λ m flags f g h same has. record {
        valid = has.valid;
        size = has.size;
        log_m = has.log_m;
        values = λ j p. has.values j p ∙ same j;
      };
      estimate-eq-list = λ m flags g h has. estimate-HasRegisters m g h has;
    }
