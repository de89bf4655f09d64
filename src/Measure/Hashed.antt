-- ===== src/Measure/Hashed.antt =====
-- When the data of the benchmark are in range: what the hashes have to be.
use native.Mathlib.Decide.{dec_lt}
use hyperlogloglog.Base.{ℕ, ◌-◌, ◌^◌, ◌≤◌, ◌<◌, ◌≡◌, ap, arith, List, [], ◌∷◌}
use hyperlogloglog.Common.{rho, fibonacci_hash, log2i}
use hyperlogloglog.Common.Log.{log2i-pow}
use hyperlogloglog.Common.Rank.{rho_bounds, fibonacci_hash-lt}
use hyperlogloglog.Registers.{IsInRange}
use hyperlogloglog.Measure.{Farm, Item, word, text, pair, word_of_int, farmhash_str, farmhash_word}
use hyperlogloglog.Measure.Laws.{pair_of, stream_of}

-- A hash that is a 64-bit word other than 0 and 1.
abbrev pub IsUsable : ℕ → Type 0
IsUsable x = (2 ≤ x) × (x < 2 ^ 64)

-- The hashes of words and strings are usable, and pairs are in range as they are.
abbrev pub AreUsable : Farm → ℕ → List Item → Type 0
AreUsable farm m [] = Unit {0}
AreUsable farm m (word x ∷ xs) = IsUsable (farm.fingerprint x) × AreUsable farm m xs
AreUsable farm m (text s ∷ xs) = IsUsable (farm.hash64 s) × AreUsable farm m xs
AreUsable farm m (pair j r ∷ xs) = (word_of_int j < m) × (word_of_int r < 64) × AreUsable farm m xs

pub rho-lt : (x : ℕ) → IsUsable x → rho x < 64
rho-lt x (big, small) =
    let b = rho_bounds x (omega arith) small in
    elim (dec_lt (rho x) 64) [
      | yes p ↦ p
      | no p ↦
          let top : rho x ≡ 64 = omega (arith, b) in
          absurd (omega (arith, b.3, ap (λ (r : ℕ). 2 ^ (65 - r)) top, big))
    ]

pub hash-lt : (x k : ℕ) → 0 < k → k ≤ 64 → fibonacci_hash x (log2i (2 ^ k)) < 2 ^ k
hash-lt x k pos le = rw (log2i-pow k) (fibonacci_hash-lt x k pos le)

-- For 2 ^ k registers, k from 1 to 64, data have indices below the number of registers and
-- ranks below 64 if the hashes of their words and strings are 64-bit words other than 0 and 1,
-- and their pairs are in range.
pub stream_of-IsInRange :
    (farm : Farm) (k : ℕ) (items : List Item)
    → 0 < k
    → k ≤ 64
    → AreUsable farm (2 ^ k) items
    → IsInRange (2 ^ k) (stream_of farm (2 ^ k) items)
unfolding stream_of pair_of farmhash_str farmhash_word
stream_of-IsInRange farm k [] pos le ok = tt
stream_of-IsInRange farm k (word x ∷ xs) pos le ok = (
  hash-lt (farm.fingerprint x) k pos le,
  rho-lt _ ok.0,
  stream_of-IsInRange farm k xs pos le ok.1,
)
stream_of-IsInRange farm k (text s ∷ xs) pos le ok =
    (hash-lt (farm.hash64 s) k pos le, rho-lt _ ok.0, stream_of-IsInRange farm k xs pos le ok.1)
stream_of-IsInRange farm k (pair j r ∷ xs) pos le ok =
    (ok.0, ok.1, stream_of-IsInRange farm k xs pos le ok.2)
