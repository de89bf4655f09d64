-- ===== src/PackedVector/Fields.antt =====
-- `get` and `set` as reads and writes of single bits of the array, across word boundaries.
use hyperlogloglog.Base.{
  ℕ, ◌+◌, ◌-◌, ◌*◌, ◌/◌, ◌%◌, ◌^◌, ◌≤◌, ◌<◌, ◌≡◌, arith, List, bit_and, low_ones, shl, shr,
  complement, ltb, leb, ◌&&◌, if◌then◌else◌, length, get_or, set, get_or-set, length-set, test_bit,
}
use hyperlogloglog.Base.Bits.{
  test_bit-le, test_bit-bit_and, test_bit-bit_or, test_bit-shr, test_bit-of_lt, lt_of_test_bit,
}
use hyperlogloglog.Base.Words.{
  test_bit-shl, test_bit-not, test_bit-low_ones, low_ones-lt, complement-lt,
}
use native.Mathlib.Nat.{div-le_self}
use hyperlogloglog.PackedVector.{read_field, write_field, patch}

-- Bit `p` of the array: bit `p % 64` of word `p / 64`.
abbrev pub bit_at : List ℕ → ℕ → ℕ
bit_at arr p = test_bit (get_or arr (p / 64) 0) (p % 64)

-- Every word fits 64 bits.
abbrev pub AreWords : List ℕ → Type 0
AreWords arr = (q : ℕ) → get_or arr q 0 < 2 ^ 64

-- A read of an element of fewer than 64 bits gives, bit by bit, the bits of the array from its
-- first on, and no bit beyond its size.
pub test_bit-read_field :
    (arr : List ℕ) (e first k : ℕ)
    → e < 64
    → AreWords arr
    → test_bit (read_field arr e (low_ones e) first) k
      ≡ (if ltb k e then bit_at arr (first + k) else 0)
unfolding read_field
test_bit-read_field arr e first k small words =
    let q = first / 64 in
    let b = first % 64 in
    ground (
      arith,
      test_bit-bit_and (shr (get_or arr q 0) b) (low_ones e) k,
      test_bit-low_ones e k small,
      test_bit-shr (get_or arr q 0) b k,
      test_bit-bit_or (shr (get_or arr q 0) b)
          (bit_and (shl (get_or arr (q + 1) 0) (64 - b)) (low_ones e)) k,
      test_bit-bit_and (shl (get_or arr (q + 1) 0) (64 - b)) (low_ones e) k,
      test_bit-shl (get_or arr (q + 1) 0) (64 - b) k,
      test_bit-of_lt 64 (get_or arr q 0) (k + b) (words q),
      test_bit-le (get_or arr q 0) (k + b),
      test_bit-le (get_or arr (q + 1) 0) (k - (64 - b)),
    )

shr-lt : (x k : ℕ) → x < 2 ^ 64 → shr x k < 2 ^ 64
shr-lt x k h = omega (arith, div-le_self x (2 ^ k))

-- The bits of a patched word: those of the element inside the hole, the old ones outside.
module _ (w x e b k : ℕ) (small : e < 64) (b_lt : b < 64) (k_lt : k < 64) where
  test_bit-patch_low :
      test_bit (patch w (shl (low_ones e) b) (shl (bit_and x (low_ones e)) b)) k
      ≡ (if leb b k && ltb k (b + e) then test_bit x (k - b) else test_bit w k)
  test_bit-patch_low = ground (
    arith,
    test_bit-bit_or (bit_and w (complement (shl (low_ones e) b))) (shl (bit_and x (low_ones e)) b)
        k,
    test_bit-bit_and w (complement (shl (low_ones e) b)) k,
    test_bit-not (shl (low_ones e) b) k,
    test_bit-shl (low_ones e) b k,
    test_bit-low_ones e (k - b) small,
    test_bit-shl (bit_and x (low_ones e)) b k,
    test_bit-bit_and x (low_ones e) (k - b),
    test_bit-le x (k - b),
    test_bit-le w k,
  )

  test_bit-patch_high :
      test_bit (patch w (shr (low_ones e) b) (shr (bit_and x (low_ones e)) b)) k
      ≡ (if ltb (k + b) e then test_bit x (k + b) else test_bit w k)
  test_bit-patch_high = ground (
    arith,
    test_bit-bit_or (bit_and w (complement (shr (low_ones e) b))) (shr (bit_and x (low_ones e)) b)
        k,
    test_bit-bit_and w (complement (shr (low_ones e) b)) k,
    test_bit-not (shr (low_ones e) b) k (shr-lt (low_ones e) b (low_ones-lt e)),
    test_bit-shr (low_ones e) b k,
    test_bit-low_ones e (k + b) small,
    test_bit-shr (bit_and x (low_ones e)) b k,
    test_bit-bit_and x (low_ones e) (k + b),
    test_bit-le x (k + b),
    test_bit-le w k,
  )

-- A write of an element of 1 to 63 bits inside the words changes the bits of the array from the
-- first of the element to its last, to those of the element, and no other bit.
pub bit_at-write_field :
    (arr : List ℕ) (e first x p : ℕ)
    → e < 64
    → first + e ≤ 64 * length arr
    → 0 < e
    → bit_at (write_field arr e (low_ones e) first (bit_and x (low_ones e))) p
      ≡ (if leb first p && ltb p (first + e) then test_bit x (p - first) else bit_at arr p)
unfolding write_field
bit_at-write_field arr e first x p small fits pos =
    let q = first / 64 in
    let b = first % 64 in
    let mask = low_ones e in
    let y = bit_and x mask in
    let first_word = patch (get_or arr q 0) (shl mask b) (shl y b) in
    let arr' = set arr q first_word in
    ground (
      arith,
      get_or-set arr q (p / 64) first_word 0,
      get_or-set arr q (q + 1) first_word 0,
      get_or-set arr' (q + 1) (p / 64)
          (patch (get_or arr' (q + 1) 0) (shr mask (64 - b)) (shr y (64 - b))) 0,
      length-set arr q first_word,
      test_bit-patch_low (get_or arr q 0) x e b (p % 64) small,
      test_bit-patch_high (get_or arr (q + 1) 0) x e (64 - b) (p % 64) small,
    )

-- A write keeps the number of words, and every word within 64 bits.
pub length-write_field :
    (arr : List ℕ) (e mask first x : ℕ) → length (write_field arr e mask first x) ≡ length arr
unfolding write_field
length-write_field arr e mask first x =
    let q = first / 64 in
    let b = first % 64 in
    let first_word = patch (get_or arr q 0) (shl mask b) (shl x b) in
    let arr' = set arr q first_word in
    ground (
      arith,
      length-set arr q first_word,
      length-set arr' (q + 1) (patch (get_or arr' (q + 1) 0) (shr mask (64 - b)) (shr x (64 - b))),
    )

patch-lt : (w hole bits : ℕ) → bits < 2 ^ 64 → patch w hole bits < 2 ^ 64
patch-lt w hole bits h = lt_of_test_bit 64 _ λ i p. ground (
  arith,
  test_bit-bit_or (bit_and w (complement hole)) bits i,
  test_bit-bit_and w (complement hole) i,
  test_bit-of_lt 64 (complement hole) i (complement-lt hole) p,
  test_bit-of_lt 64 bits i h p,
)

bit_and-lt : (x y : ℕ) → y < 2 ^ 64 → bit_and x y < 2 ^ 64
bit_and-lt x y h =
    lt_of_test_bit 64 _ λ i p. ground (arith, test_bit-bit_and x y i, test_bit-of_lt 64 y i h p)

set-AreWords :
    (arr : List ℕ) (i x : ℕ) → i < length arr → AreWords arr → x < 2 ^ 64 → AreWords (set arr i x)
set-AreWords arr i x inside words h q = ground (arith, get_or-set arr i q x 0 inside, words q)

pub write_field-AreWords :
    (arr : List ℕ) (e first x : ℕ)
    → first + e ≤ 64 * length arr
    → 0 < e
    → AreWords arr
    → AreWords (write_field arr e (low_ones e) first (bit_and x (low_ones e)))
unfolding write_field
write_field-AreWords arr e first x fits pos words q' =
    let q = first / 64 in
    let b = first % 64 in
    let mask = low_ones e in
    let y = bit_and x mask in
    let first_word = patch (get_or arr q 0) (shl mask b) (shl y b) in
    let arr' = set arr q first_word in
    let later = patch (get_or arr' (q + 1) 0) (shr mask (64 - b)) (shr y (64 - b)) in
    let once : AreWords arr' =
      set-AreWords arr q first_word (omega arith) words (patch-lt _ _ _ (omega arith)) in
    ground (
      arith,
      once q',
      get_or-set arr' (q + 1) q' later 0,
      length-set arr q first_word,
      patch-lt (get_or arr' (q + 1) 0) (shr mask (64 - b)) (shr y (64 - b))
          (shr-lt y (64 - b) (bit_and-lt x mask (low_ones-lt e))),
    )
