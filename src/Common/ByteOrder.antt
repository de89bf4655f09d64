-- ===== src/Common/ByteOrder.antt =====
-- `htonll` and `ntohll` of hyperlogloglog/common.hpp. `htonl` and `ntohl` are the system's, and
-- take and give 32 bits.
use hyperlogloglog.Base.{
  ℕ, ◌+◌, ◌-◌, ◌^◌, ◌<◌, ◌≡◌, ap, ◌∙◌, arith, bit_and, bit_or, shl, shr, low_ones, ltb,
  if◌then◌else◌, test_bit,
}
use hyperlogloglog.Base.Bits.{
  test_bit-le, test_bit-bit_and, test_bit-bit_or, test_bit-shr, test_bit_ext, test_bit-of_lt,
  lt_of_test_bit,
}
use hyperlogloglog.Base.Words.{test_bit-shl, test_bit-low_ones}

pub record ByteOrder : Type 0 where
  pub htonl : ℕ → ℕ
  pub ntohl : ℕ → ℕ

-- Each undoes the other, and they are one function: both swap the bytes, or neither does.
pub record IsByteOrder (o : ByteOrder) : Type 0 where
  pub htonl-lt : (x : ℕ) → x < 2 ^ 32 → o.htonl x < 2 ^ 32
  pub ntohl-htonl : (x : ℕ) → x < 2 ^ 32 → o.ntohl (o.htonl x) ≡ x
  pub htonl-eq-ntohl : (x : ℕ) → x < 2 ^ 32 → o.htonl x ≡ o.ntohl x

module _ (o : ByteOrder) where
  unfoldable pub htonll : ℕ → ℕ
  htonll x = bit_or (shl (o.htonl (bit_and x 0xffff_ffff)) 32) (o.htonl (shr x 32))

  -- The code converts the high half by `htonl`.
  unfoldable pub ntohll : ℕ → ℕ
  ntohll x = bit_or (shl (o.ntohl (bit_and x 0xffff_ffff)) 32) (o.htonl (shr x 32))

test_bit-half : (i : ℕ) → test_bit 0xffff_ffff i ≡ (if ltb i 32 then 1 else 0)
test_bit-half i = unfold low_ones in test_bit-low_ones 32 i (omega arith)

-- Two halves and the word that they make.
low_half : (a b : ℕ) → b < 2 ^ 32 → bit_and (bit_or (shl a 32) b) 0xffff_ffff ≡ b
low_half a b h = test_bit_ext _ _ λ i. ground (
  arith,
  test_bit-bit_and (bit_or (shl a 32) b) 0xffff_ffff i,
  test_bit-bit_or (shl a 32) b i,
  test_bit-shl a 32 i,
  test_bit-half i,
  test_bit-of_lt 32 b i h,
  test_bit-le b i,
)

high_half : (a b : ℕ) → a < 2 ^ 32 → b < 2 ^ 32 → shr (bit_or (shl a 32) b) 32 ≡ a
high_half a b h k = test_bit_ext _ _ λ i. ground (
  arith,
  test_bit-shr (bit_or (shl a 32) b) 32 i,
  test_bit-bit_or (shl a 32) b (i + 32),
  test_bit-shl a 32 (i + 32),
  test_bit-of_lt 32 b (i + 32) k,
  test_bit-of_lt 32 a i h,
  ap (test_bit a) {x = i + 32 - 32} {y = i},
)

join_halves : (x : ℕ) → x < 2 ^ 64 → bit_or (shl (shr x 32) 32) (bit_and x 0xffff_ffff) ≡ x
join_halves x h = test_bit_ext _ _ λ i. ground (
  arith,
  test_bit-bit_or (shl (shr x 32) 32) (bit_and x 0xffff_ffff) i,
  test_bit-bit_and x 0xffff_ffff i,
  test_bit-shl (shr x 32) 32 i,
  test_bit-shr x 32 (i - 32),
  test_bit-half i,
  test_bit-of_lt 64 x i h,
  test_bit-le x i,
  ap (test_bit x) {x = i - 32 + 32} {y = i},
)

low-lt : (x : ℕ) → bit_and x 0xffff_ffff < 2 ^ 32
low-lt x =
    lt_of_test_bit 32 _ λ i p. ground (arith, test_bit-bit_and x 0xffff_ffff i, test_bit-half i)

word-lt : (a b : ℕ) → b < 2 ^ 32 → bit_or (shl a 32) b < 2 ^ 64
word-lt a b h = lt_of_test_bit 64 _ λ i p.
    ground (arith, test_bit-bit_or (shl a 32) b i, test_bit-shl a 32 i, test_bit-of_lt 32 b i h)

module _ {o : ByteOrder} (laws : IsByteOrder o) (x : ℕ) (h : x < 2 ^ 64) where
  high-lt : shr x 32 < 2 ^ 32
  high-lt = omega arith

  pub htonll-lt : htonll o x < 2 ^ 64
  unfolding htonll
  htonll-lt = word-lt _ (o.htonl (shr x 32)) (laws.htonl-lt _ high-lt)

  -- With a byte order of 32-bit words that is undone by itself, `ntohll` undoes `htonll` on
  -- 64-bit words.
  pub ntohll-htonll : ntohll o (htonll o x) ≡ x
  unfolding htonll ntohll
  ntohll-htonll =
      let a = o.htonl (bit_and x 0xffff_ffff) in
      let b = o.htonl (shr x 32) in
      let a_lt : a < 2 ^ 32 = laws.htonl-lt _ (low-lt x) in
      let b_lt : b < 2 ^ 32 = laws.htonl-lt _ high-lt in
      let back : o.htonl a ≡ bit_and x 0xffff_ffff =
        laws.htonl-eq-ntohl a a_lt ∙ laws.ntohl-htonl _ (low-lt x) in
      rw (low_half a b b_lt, high_half a b a_lt b_lt, back, laws.ntohl-htonl _ high-lt)
        (join_halves x h)
