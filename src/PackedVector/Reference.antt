-- ===== src/PackedVector/Reference.antt =====
-- A packed vector as a list: what a `std::vector` would hold after the same operations, as
-- `test_packed_vector2` of hyperlogloglog/test.cpp compares the two.
use hyperlogloglog.Base.{
  ℕ, zero, suc, ◌+◌, ◌-◌, ◌*◌, ◌%◌, ◌^◌, ◌≤◌, ◌<◌, ◌≡◌, refl, sym, ap, ◌∙◌, arith, List, [], ◌∷◌,
  ◌++◌, ltb, ◌==◌, if◌then◌else◌, length, length-append, get_or, ◌⊎◌, inl, inr, set, length-set,
  get_or-set, replicate, length-replicate, get_or-replicate,
}
use hyperlogloglog.Base.Tables.{tabulate, eq-tabulate}
use hyperlogloglog.PackedVector.{PackedVector, new, get, set_at, append, insert, erase}
use hyperlogloglog.PackedVector.Valid.{IsValid, new-IsValid, set_at-IsValid}
use hyperlogloglog.PackedVector.Elements.{
  get-new, size-set_at, elem_size-set_at, get-set_at, append-IsValid, size-append, get-append,
  elem_size-append,
}
use hyperlogloglog.PackedVector.Shifts.{erase-IsValid, size-erase, elem_size-erase, get-erase}
use hyperlogloglog.PackedVector.Insert.{insert-IsValid, size-insert, elem_size-insert, get-insert}

-- `insert(begin() + i, x)` and `erase(begin() + i)` of a `std::vector`.
unfoldable pub insert_at : List ℕ → ℕ → ℕ → List ℕ
insert_at xs zero x = x ∷ xs
insert_at [] (suc i) x = x ∷ []
insert_at (y ∷ ys) (suc i) x = y ∷ insert_at ys i x

unfoldable pub erase_at : List ℕ → ℕ → List ℕ
erase_at [] i = []
erase_at (y ∷ ys) zero = ys
erase_at (y ∷ ys) (suc i) = y ∷ erase_at ys i

pub length-insert_at : (xs : List ℕ) (i x : ℕ) → length (insert_at xs i x) ≡ length xs + 1
unfolding insert_at
length-insert_at xs zero x = omega arith
length-insert_at [] (suc i) x = refl
length-insert_at (y ∷ ys) (suc i) x = omega (arith, length-insert_at ys i x)

get_or-insert_at :
    (xs : List ℕ) (i x k : ℕ)
    → i ≤ length xs
    → get_or (insert_at xs i x) k 0
      ≡ (if k == i then x else if ltb k i then get_or xs k 0 else get_or xs (k - 1) 0)
unfolding insert_at
get_or-insert_at xs zero x zero le = refl
get_or-insert_at xs zero x (suc k) le =
    ground (arith, ap (λ n. get_or xs n 0) {x = k} {y = suc k - 1} (omega arith))
get_or-insert_at [] (suc i) x k le = absurd (omega arith)
get_or-insert_at (y ∷ ys) (suc i) x zero le = ground arith
get_or-insert_at (y ∷ ys) (suc i) x (suc k) le =
    let back : (k ≡ 0) ⊎ (get_or (y ∷ ys) k 0 ≡ get_or ys (k - 1) 0) = shifted k in
    ground (
      arith,
      get_or-insert_at ys i x k (omega arith),
      back,
      ap (λ n. get_or (y ∷ ys) n 0) {x = suc k - 1} {y = k} (omega arith),
    )
  where
    shifted : (k : ℕ) → (k ≡ 0) ⊎ (get_or (y ∷ ys) k 0 ≡ get_or ys (k - 1) 0)
    shifted zero = inl refl
    shifted (suc k) = inr (ap (λ n. get_or ys n 0) {x = k} {y = suc k - 1} (omega arith))

pub length-erase_at : (xs : List ℕ) (i : ℕ) → i < length xs → length (erase_at xs i) ≡ length xs - 1
unfolding erase_at
length-erase_at [] i h = absurd (omega arith)
length-erase_at (y ∷ ys) zero h = omega arith
length-erase_at (y ∷ ys) (suc i) h = omega (arith, length-erase_at ys i (omega arith))

get_or-erase_at :
    (xs : List ℕ) (i k : ℕ)
    → i < length xs
    → get_or (erase_at xs i) k 0 ≡ (if ltb k i then get_or xs k 0 else get_or xs (k + 1) 0)
unfolding erase_at
get_or-erase_at [] i k h = absurd (omega arith)
get_or-erase_at (y ∷ ys) zero k h =
    ground (arith, ap (λ n. get_or (y ∷ ys) n 0) {x = suc k} {y = k + 1} (omega arith))
get_or-erase_at (y ∷ ys) (suc i) zero h = ground arith
get_or-erase_at (y ∷ ys) (suc i) (suc k) h = ground (
  arith,
  get_or-erase_at ys i k (omega arith),
  ap (λ n. get_or (y ∷ ys) n 0) {x = suc k + 1} {y = suc (k + 1)} (omega arith),
)

pub get_or-snoc :
    (xs : List ℕ) (x k : ℕ)
    → k ≤ length xs
    → get_or (xs ++ x ∷ []) k 0 ≡ (if length xs == k then x else get_or xs k 0)
get_or-snoc [] x zero le = refl
get_or-snoc [] x (suc k) le = absurd (omega arith)
get_or-snoc (y ∷ ys) x zero le = ground arith
get_or-snoc (y ∷ ys) x (suc k) le = ground (arith, get_or-snoc ys x k (omega arith))

-- The packed vectors with at most `limit` elements of `e` bits that the operations make one after
-- another, each with what a `std::vector` holds after the same operations on the elements cut to
-- `e` bits.
pub data Edits (limit e : ℕ) : PackedVector → List ℕ → Type 0 where
  created : (n : ℕ) → n ≤ limit → Edits limit e (new e n) (replicate n 0)
  stored :
      {v : PackedVector} {xs : List ℕ} (i x : ℕ)
      → Edits limit e v xs
      → i < length xs
      → Edits limit e (set_at v i x) (set xs i (x % 2 ^ e))
  appended :
      {v : PackedVector} {xs : List ℕ} (x : ℕ)
      → Edits limit e v xs
      → length xs < limit
      → Edits limit e (append v x) (xs ++ x % 2 ^ e ∷ [])
  inserted :
      {v : PackedVector} {xs : List ℕ} (i x : ℕ)
      → Edits limit e v xs
      → length xs < limit
      → i ≤ length xs
      → Edits limit e (insert v i x) (insert_at xs i (x % 2 ^ e))
  erased :
      {v : PackedVector} {xs : List ℕ} (i : ℕ)
      → Edits limit e v xs
      → i < length xs
      → Edits limit e (erase v i) (erase_at xs i)

-- What the packed vector holds.
unfoldable pub elements : PackedVector → List ℕ
elements v = tabulate (get v) v.size

pub record Agrees (limit e : ℕ) (v : PackedVector) (xs : List ℕ) : Type 0 where
  pub valid : IsValid limit v
  pub width : v.elem_size ≡ e
  pub size : v.size ≡ length xs
  pub same : (k : ℕ) → k < v.size → get v k ≡ get_or xs k 0

module _ (limit e : ℕ) (pos : 0 < e) (small : e < 64) (addressable : limit * e + 128 ≤ 2 ^ 64)
    (ints : limit < 2 ^ 31) where
  pub Edits-Agrees : {v : PackedVector} {xs : List ℕ} → Edits limit e v xs → Agrees limit e v xs
  Edits-Agrees (created n le) =
      let valid = new-IsValid limit e n pos small le addressable in
      record {
        valid = valid;
        width = unfold new in refl;
        size = unfold new in sym (length-replicate n 0);
        same = λ k h. get-new limit e n k valid (unfold new in h) ∙ sym (get_or-replicate n k 0);
      }
  Edits-Agrees (stored {v} {xs} i x run h) =
      let before = Edits-Agrees run in
      let at : i < v.size = omega (arith, before.size) in
      record {
        valid = set_at-IsValid i x before.valid at;
        width = elem_size-set_at v i x ∙ before.width;
        size = size-set_at v i x ∙ before.size ∙ sym (length-set xs i (x % 2 ^ e));
        same = λ k hk. ground (
          arith,
          before.size,
          before.width,
          before.same k,
          size-set_at v i x,
          get-set_at i k x before.valid at,
          get_or-set xs i k (x % 2 ^ e) 0,
        );
      }
  Edits-Agrees (appended {v} {xs} x run room) =
      let before = Edits-Agrees run in
      let less : v.size < limit = omega (arith, before.size) in
      record {
        valid = append-IsValid before.valid less x;
        width = elem_size-append v x ∙ before.width;
        size = omega (
          arith,
          size-append before.valid less x,
          before.size,
          length-append xs (x % 2 ^ e ∷ []),
        );
        same = λ k hk. ground (
          arith,
          before.size,
          before.width,
          before.same k,
          size-append before.valid less x,
          get-append before.valid less k x,
          get_or-snoc xs (x % 2 ^ e) k,
        );
      }
  Edits-Agrees (inserted {v} {xs} i x run room h) =
      let before = Edits-Agrees run in
      let less : v.size < limit = omega (arith, before.size) in
      let at : i ≤ v.size = omega (arith, before.size) in
      record {
        valid = insert-IsValid i x before.valid less ints at;
        width = elem_size-insert i x before.valid less ints at ∙ before.width;
        size = omega (
          arith,
          size-insert i x before.valid less ints at,
          before.size,
          length-insert_at xs i (x % 2 ^ e),
        );
        same = λ k hk. ground (
          arith,
          before.size,
          before.width,
          before.same k,
          before.same (k - 1),
          size-insert i x before.valid less ints at,
          get-insert i x before.valid less ints at k,
          get_or-insert_at xs i (x % 2 ^ e) k,
        );
      }
  Edits-Agrees (erased {v} {xs} i run h) =
      let before = Edits-Agrees run in
      let at : i < v.size = omega (arith, before.size) in
      record {
        valid = erase-IsValid i before.valid at;
        width = elem_size-erase i before.valid at ∙ before.width;
        size = omega (arith, size-erase i before.valid at, before.size, length-erase_at xs i);
        same = λ k hk. ground (
          arith,
          before.size,
          before.same k,
          before.same (k + 1),
          size-erase i before.valid at,
          get-erase i before.valid at k,
          get_or-erase_at xs i k,
        );
      }

  -- Take elements of e bits, 0 < e < 64, and a limit below 2 ^ 31 with limit * e + 128 at most
  -- 2 ^ 64. Whatever operations make a packed vector, of the constructor, `set`, `append`,
  -- `insert` and `erase`, each at an index and a size that the operation is for and within the
  -- limit, its elements are those of a `std::vector` after the same operations on the elements
  -- cut to e bits.
  pub Edits_refines : {v : PackedVector} {xs : List ℕ} → Edits limit e v xs → elements v ≡ xs
  unfolding elements
  Edits_refines {v} {xs} run =
      let after = Edits-Agrees run in
      sym (eq-tabulate xs (get v) v.size (sym after.size) λ k h. sym (after.same k h))
