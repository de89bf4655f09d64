-- ===== src/Input/Laws.antt =====
-- What is read is what was written.
use hyperlogloglog.Base.{
  wrap, ◌^◌, ◌<◌, ℕ, zero, suc, ◌+◌, ◌-◌, ◌*◌, ◌/◌, ◌^◌, ◌≤◌, ◌<◌, ◌≡◌, refl, ap, ap₂, ◌∙◌, arith,
  List, [], ◌∷◌, ◌++◌, length, take, drop, take-append-drop, length-drop,
}
use hyperlogloglog.Input.{load, store, read_words, read_bytes, cut_strings, read_str}
use hyperlogloglog.Generator.{write_words}

-- The numbers of so many bytes are below this.
abbrev pub capacity : ℕ → ℕ
capacity zero = 1
capacity (suc width) = 2 ^ 8 * capacity width

load-store-append :
    (width x : ℕ) (rest : List ℕ) → x < capacity width → load width (store width x ++ rest) ≡ x
unfolding load store
load-store-append zero x rest h = omega arith
load-store-append (suc width) x rest h =
    omega (arith, load-store-append width (x / 2 ^ 8) rest (omega arith))

drop-store-append : (width x : ℕ) (rest : List ℕ) → drop width (store width x ++ rest) ≡ rest
unfolding store
drop-store-append zero x rest = refl
drop-store-append (suc width) x rest = drop-store-append width (x / 2 ^ 8) rest

abbrev pub Below : ℕ → List ℕ → Type 0
Below n [] = Unit {0}
Below n (x ∷ xs) = (x < n) × Below n xs

pub read_words-write_words :
    (width n : ℕ) (xs : List ℕ)
    → n ≡ length xs
    → Below (capacity width) xs
    → read_words width n (write_words width xs) ≡ xs
unfolding read_words write_words
read_words-write_words width zero [] e h = refl
read_words-write_words width zero (x ∷ xs) e h = absurd (omega arith)
read_words-write_words width (suc n) [] e h = absurd (omega arith)
read_words-write_words width (suc n) (x ∷ xs) e h =
    rw (drop-store-append width x (write_words width xs)) (
      ap₂ ◌∷◌ (load-store-append width x (write_words width xs) h.0)
        (read_words-write_words width n xs (omega arith) h.1))

-- What is read into a buffer of the input's length is the input.
read_bytes-all : (n : ℕ) (input : List ℕ) → length input ≡ n → read_bytes n input ≡ input
unfolding read_bytes
read_bytes-all zero [] e = refl
read_bytes-all zero (b ∷ input) e = absurd (omega arith)
read_bytes-all (suc n) [] e = absurd (omega arith)
read_bytes-all (suc n) (b ∷ input) e = ap (λ bs. b ∷ bs) (read_bytes-all n input (omega arith))

length-read_bytes : (n : ℕ) (input : List ℕ) → length (read_bytes n input) ≡ n
unfolding read_bytes
length-read_bytes zero input = refl
length-read_bytes (suc n) [] = ap suc (length-read_bytes n [])
length-read_bytes (suc n) (b ∷ input) = ap suc (length-read_bytes n input)

-- The strings one after the other.
pub concat : List (List ℕ) → List ℕ
concat [] = []
concat (s ∷ ss) = s ++ concat ss

-- `n` strings of one length.
abbrev pub AreStrings : ℕ → ℕ → List (List ℕ) → Type 0
AreStrings n len [] = n ≡ 0
AreStrings n len (s ∷ ss) = (0 < n) × (length s ≡ len) × AreStrings (n - 1) len ss

length-take : (n : ℕ) (xs : List ℕ) → n ≤ length xs → length (take n xs) ≡ n
length-take zero xs h = refl
length-take (suc n) [] h = absurd (omega arith)
length-take (suc n) (x ∷ xs) h = ap suc (length-take n xs (omega arith))

cut_strings-AreStrings :
    (n len : ℕ) (temp : List ℕ)
    → length temp ≡ n * len
    → AreStrings n len (cut_strings n len temp) × (concat (cut_strings n len temp) ≡ temp)
unfolding cut_strings concat
cut_strings-AreStrings zero len [] e = (refl, refl)
cut_strings-AreStrings zero len (b ∷ temp) e = absurd (omega arith)
cut_strings-AreStrings (suc n) len temp e =
    let row : suc n * len ≡ len + n * len = grind arith in
    let rest = cut_strings-AreStrings n len (drop len temp) (omega (arith, length-drop len temp)) in
    let n_n : suc n - 1 ≡ n = omega arith in
    (
      (omega arith, length-take len temp (omega arith), rw n_n rest.0),
      ap (λ bs. take len temp ++ bs) rest.1 ∙ take-append-drop len temp,
    )

-- An input of `n * len` bytes, which does not wrap, is read as `n` strings of `len` bytes, which joined are the input.
pub read_str-AreStrings :
    (n len : ℕ) (input : List ℕ)
    → length input ≡ n * len
    → n * len < 2 ^ 64
    → AreStrings n len (read_str n len input) × (concat (read_str n len input) ≡ input)
unfolding read_str
read_str-AreStrings n len input e small =
    let whole : wrap (n * len) ≡ n * len = omega (arith, small) in
    rw (whole, read_bytes-all (n * len) input e) (cut_strings-AreStrings n len input e)
