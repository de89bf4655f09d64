-- ===== src/Measure/Sketches.antt =====
-- The four classes that hyperlogloglog/measure.cpp measures, as instances of its templates:
-- `constructImplementation`, `getEstimate`, `getBitsize`, `getCompressCount`, `getRebaseCount`.
use hyperlogloglog.Base.{ℕ, none, some}
use hyperlogloglog.Common.{fibonacci_hash}
use hyperlogloglog.Estimate.{Floats}
use hyperlogloglog.HyperLogLog
use hyperlogloglog.HyperLogLog.{HyperLogLog}
use hyperlogloglog.HyperLogLog.Estimate as VanillaEstimate
use hyperlogloglog.HyperLogLogZstd
use hyperlogloglog.HyperLogLogZstd.{HyperLogLogZstd, Zstd}
use hyperlogloglog.HyperLogLogLog.State.{HyperLogLogLog, new}
use hyperlogloglog.HyperLogLogLog.Update.{add, add_jr, bit_size}
use hyperlogloglog.HyperLogLogLog.Getters.{get_compress_count, get_rebase_count}
use hyperlogloglog.HyperLogLogLog.Merge.{merge}
use hyperlogloglog.HyperLogLogLog.Estimate.{estimate}
use hyperlogloglog.Measure.{Algorithm}
use hyperlogloglog.Measure.Hasher
use hyperlogloglog.Measure.Hasher.{Hasher}

-- The default second hash of `add`; the elements are hashed before.
abbrev pub hashed : ℕ → ℕ
hashed x = x

module _ {ℓ} {F : Type ℓ} (d : Floats F) where
  abbrev pub hyper_log_log : Algorithm F
  hyper_log_log = record {
    Sketch = HyperLogLog;
    construct = λ m flags. some (HyperLogLog.new m);
    add = λ h x. some (HyperLogLog.add h x hashed fibonacci_hash);
    add_jr = λ h j r. some (HyperLogLog.add_jr h j r);
    merge = HyperLogLog.merge;
    estimate = VanillaEstimate.estimate d;
    bit_size = HyperLogLog.bit_size;
    compress_count = λ h. 0;
    rebase_count = λ h. 0;
  }

  abbrev pub hyper_log_log_zstd : Zstd → Algorithm F
  hyper_log_log_zstd z = record {
    Sketch = HyperLogLogZstd;
    construct = λ m flags. some (HyperLogLogZstd.new z m);
    add = λ h x. some (HyperLogLogZstd.add z h x hashed fibonacci_hash);
    add_jr = λ h j r. some (HyperLogLogZstd.add_jr z h j r);
    merge = λ a b. elim (HyperLogLogZstd.merge z a b) [ none ↦ none | some (a', b', h) ↦ some h ];
    estimate = λ h. (HyperLogLogZstd.estimate z d h).0;
    bit_size = HyperLogLogZstd.bit_size z;
    compress_count = λ h. 0;
    rebase_count = λ h. 0;
  }

  -- The offsets have 3 bits.
  abbrev pub hyper_log_log_log : Algorithm F
  hyper_log_log_log = record {
    Sketch = HyperLogLogLog;
    construct = λ m flags. new m 3 flags;
    add = λ h x. some (add h x hashed fibonacci_hash);
    add_jr = λ h j r. some (add_jr h j r);
    merge = merge;
    estimate = estimate d;
    bit_size = bit_size;
    compress_count = get_compress_count;
    rebase_count = get_rebase_count;
  }

  abbrev pub hash_only : Algorithm F
  hash_only = record {
    Sketch = Hasher;
    construct = λ m flags. some (Hasher.construct m);
    add = λ h x. some (Hasher.add h x);
    add_jr = Hasher.add_jr;
    merge = Hasher.merge;
    estimate = λ h. d.of_nat 0;
    bit_size = λ h. 0;
    compress_count = λ h. 0;
    rebase_count = λ h. 0;
  }
