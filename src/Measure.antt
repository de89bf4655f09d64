-- ===== src/Measure.antt =====
-- hyperlogloglog/measure.cpp: the benchmark. A sketch class is an interface, which the templates
-- of the code ask for; `none` is an exception or a failed assertion. The clock is left out, and a
-- report is the values that are printed.
pub mod Laws
pub mod Modes
pub mod Hasher
pub mod Sketches
pub mod Represent
pub mod RepresentZstd
pub mod RepresentLogLogLog
pub mod Main
pub mod Agree
pub mod Hashed
use hyperlogloglog.Base.{
  ℕ, zero, suc, ◌+◌, ◌-◌, ◌/◌, ◌^◌, Bool, Option, none, some, List, [], ◌∷◌, ◌++◌, ltb,
  if◌then◌else◌, length, take, drop,
}

infixl 5 ◌>>=◌
abbrev pub ◌>>=◌ {ℓ κ} : {A : Type ℓ} {B : Type κ} → Option A → (A → Option B) → Option B
none >>= f = none
some a >>= f = f a

-- `farmhash::Hash64` of a string and `farmhash::Fingerprint` of a word, of external/farmhash.
pub record Farm : Type 0 where
  pub hash64 : List ℕ → ℕ
  pub fingerprint : ℕ → ℕ

-- An element of the data: a word, a string, or the bit patterns of a pair of `int`s.
pub data Item : Type 0 where
  word : ℕ → Item
  text : List ℕ → Item
  pair : ℕ → ℕ → Item

-- The specialisations of `farmhash`, for the elements that are hashed.
unfoldable pub farmhash_str : Farm → List ℕ → ℕ
farmhash_str farm s = farm.hash64 s

unfoldable pub farmhash_word : Farm → ℕ → ℕ
farmhash_word farm x = farm.fingerprint x

-- An `int` as a `Word`: sign extension.
abbrev pub word_of_int : ℕ → ℕ
word_of_int p = if ltb p (2 ^ 31) then p else p + (2 ^ 64 - 2 ^ 32)

-- `toString`, with the functions `std::to_string` of a word and of an `int`.
unfoldable pub to_string : (ℕ → List ℕ) → (ℕ → List ℕ) → Item → List ℕ
to_string word_digits int_digits (word x) = word_digits x
to_string word_digits int_digits (text s) = s
to_string word_digits int_digits (pair j r) = int_digits j ++ b' ' ∷ int_digits r

-- What the templates call. `add` takes the element's hash.
pub record Algorithm {ℓ} (F : Type ℓ) : Type (ℓ ⊔ 1) where
  pub Sketch : Type 0
  pub construct : ℕ → ℕ → Option Sketch
  pub add : Sketch → ℕ → Option Sketch
  pub add_jr : Sketch → ℕ → ℕ → Option Sketch
  pub merge : Sketch → Sketch → Option Sketch
  pub estimate : Sketch → F
  pub bit_size : Sketch → ℕ
  pub compress_count : Sketch → ℕ
  pub rebase_count : Sketch → ℕ

pub record Report {ℓ} (F : Type ℓ) : Type ℓ where
  pub estimate : F
  pub bit_size : ℕ
  pub compress_count : ℕ
  pub rebase_count : ℕ

pub data Mode : Type 0 where
  query merge : Mode

module _ {ℓ} {F : Type ℓ} (farm : Farm) (alg : Algorithm F) where
  unfoldable pub add_item : alg.Sketch → Item → Option alg.Sketch
  unfolding farmhash_str farmhash_word
  add_item h (word x) = alg.add h (farmhash_word farm x)
  add_item h (text s) = alg.add h (farmhash_str farm s)
  add_item h (pair j r) = alg.add_jr h (word_of_int j) (word_of_int r)

  -- The loops `adds`.
  unfoldable pub adds : alg.Sketch → List Item → Option alg.Sketch
  unfolding add_item
  adds h [] = some h
  adds h (x ∷ xs) = add_item h x >>= λ h'. adds h' xs

  unfoldable pub report : alg.Sketch → Report F
  report h = record {
    estimate = alg.estimate h;
    bit_size = alg.bit_size h;
    compress_count = alg.compress_count h;
    rebase_count = alg.rebase_count h;
  }

  -- The two sketches take a half of the data each.
  unfoldable pub measure_merge_of : alg.Sketch → alg.Sketch → List Item → Option (Report F)
  measure_merge_of h₁ h₂ items = do
    let n₁ = length items / 2
    a ← adds h₁ (take n₁ items)
    b ← adds h₂ (drop n₁ items)
    h ← alg.merge a b
    some (report h)

  unfoldable pub measure_merge : ℕ → ℕ → List Item → Option (Report F)
  measure_merge m flags items = do
    h₁ ← alg.construct m flags
    h₂ ← alg.construct m flags
    measure_merge_of h₁ h₂ items

  unfoldable pub measure_query_of : alg.Sketch → List Item → Option (Report F)
  measure_query_of h items = do h' ← adds h items; some (report h')

  unfoldable pub measure_query : ℕ → ℕ → List Item → Option (Report F)
  measure_query m flags items = do h ← alg.construct m flags; measure_query_of h items

  unfoldable pub measure : Mode → ℕ → ℕ → List Item → Option (Report F)
  measure merge m flags items = measure_merge m flags items
  measure query m flags items = measure_query m flags items
