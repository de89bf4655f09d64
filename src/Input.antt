-- ===== src/Input.antt =====
-- The data of the benchmarks as bytes: `readData` of hyperlogloglog/measure.hpp, which reads
-- standard input. A vector is filled with zeros first, so that what the input is too short for
-- reads 0. A number lies in memory with its lowest byte first, on the machines that the code
-- swaps bytes for. The clock and its report are left out. A `pair<int,int>` holds the 32-bit
-- patterns of its numbers.
pub mod Laws
use hyperlogloglog.Base.{
  wrap, ℕ, zero, suc, ◌+◌, ◌*◌, ◌/◌, ◌%◌, ◌^◌, List, [], ◌∷◌, ◌++◌, map, take, drop, get_or,
}
use hyperlogloglog.Common.ByteOrder.{ByteOrder, ntohll}

-- A number of so many bytes, from memory and to memory.
unfoldable pub load : ℕ → List ℕ → ℕ
load zero bytes = 0
load (suc width) [] = 0
load (suc width) (b ∷ bytes) = b + 2 ^ 8 * load width bytes

unfoldable pub store : ℕ → ℕ → List ℕ
store zero x = []
store (suc width) x = (x % 2 ^ 8) ∷ store width (x / 2 ^ 8)

-- `n` numbers from the input.
unfoldable pub read_words : ℕ → ℕ → List ℕ → List ℕ
read_words width zero input = []
read_words width (suc n) input = load width input ∷ read_words width n (drop width input)

-- So many bytes from the input.
unfoldable pub read_bytes : ℕ → List ℕ → List ℕ
read_bytes zero input = []
read_bytes (suc n) [] = 0 ∷ read_bytes n []
read_bytes (suc n) (b ∷ input) = b ∷ read_bytes n input

-- The loop that cuts the buffer into `n` strings.
unfoldable pub cut_strings : ℕ → ℕ → List ℕ → List (List ℕ)
cut_strings zero len temp = []
cut_strings (suc n) len temp = take len temp ∷ cut_strings n len (drop len temp)

unfoldable pub read_str : ℕ → ℕ → List ℕ → List (List ℕ)
unfolding cut_strings read_bytes
read_str n len input = cut_strings n len (read_bytes (wrap (n * len)) input)

module _ (o : ByteOrder) where
  unfoldable pub read_uint64 : ℕ → List ℕ → List ℕ
  unfolding read_words load
  read_uint64 n input = map (ntohll o) (read_words 8 n input)

  -- The loop over the pairs of words.
  unfoldable pub read_pairs : ℕ → List ℕ → List (ℕ × ℕ)
  read_pairs zero temp = []
  read_pairs (suc n) temp =
      (o.ntohl (get_or temp 0 0), o.ntohl (get_or temp 1 0)) ∷ read_pairs n (drop 2 temp)

  unfoldable pub read_jr : ℕ → List ℕ → List (ℕ × ℕ)
  unfolding read_pairs read_words load
  read_jr n input = read_pairs n (read_words 4 (2 * n) input)
