-- ===== src/HyperLogLogLog/Counts.antt =====
-- How many of the first numbers pass a test.
use hyperlogloglog.Base.{
  ℕ, zero, suc, ◌+◌, ◌≤◌, ◌<◌, ◌≡◌, refl, arith, Bool, true, false, if◌then◌else◌,
}

unfoldable pub count : (ℕ → Bool) → ℕ → ℕ
count test zero = 0
count test (suc n) = count test n + (if test n then 1 else 0)

pub count_mono :
    (f g : ℕ → Bool) (n : ℕ) → ((i : ℕ) → i < n → f i ≡ true → g i ≡ true) → count f n ≤ count g n
unfolding count
count_mono f g zero sub = omega arith
count_mono f g (suc n) sub =
    ground (arith, count_mono f g n (λ i p. sub i (omega arith)), sub n (omega arith))

pub count_none : (f : ℕ → Bool) (n : ℕ) → ((i : ℕ) → i < n → f i ≡ false) → count f n ≡ 0
unfolding count
count_none f zero none = refl
count_none f (suc n) none =
    ground (arith, count_none f n (λ i p. none i (omega arith)), none n (omega arith))

-- A test that splits into two that exclude each other.
pub count_split :
    (f g h : ℕ → Bool) (n : ℕ)
    → ((i : ℕ) → i < n → (if h i then 1 else 0) ≡ (if f i then 1 else 0) + (if g i then 1 else 0))
    → count h n ≡ count f n + count g n
unfolding count
count_split f g h zero parts = refl
count_split f g h (suc n) parts =
    omega (arith, count_split f g h n (λ i p. parts i (omega arith)), parts n (omega arith))

pub count_ext : (f g : ℕ → Bool) (n : ℕ) → ((i : ℕ) → i < n → f i ≡ g i) → count f n ≡ count g n
unfolding count
count_ext f g zero same = refl
count_ext f g (suc n) same =
    ground (arith, count_ext f g n (λ i p. same i (omega arith)), same n (omega arith))

pub count_front :
    (f : ℕ → Bool) (n : ℕ) → count f (suc n) ≡ (if f 0 then 1 else 0) + count (λ i. f (suc i)) n
unfolding count
count_front f zero = omega arith
count_front f (suc n) = omega (arith, count_front f n)

pub count-le : (f : ℕ → Bool) (n : ℕ) → count f n ≤ n
unfolding count
count-le f zero = omega arith
count-le f (suc n) = ground (arith, count-le f n)

-- A test that all of the numbers pass.
pub count_all : (f : ℕ → Bool) (n : ℕ) → ((i : ℕ) → i < n → f i ≡ true) → count f n ≡ n
unfolding count
count_all f zero all = refl
count_all f (suc n) all =
    ground (arith, count_all f n (λ i p. all i (omega arith)), all n (omega arith))
