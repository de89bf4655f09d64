-- ===== src/PackedVector/Insert.antt =====
-- `insert`: the loop that moves elements up by one place, and its casts to `int`.
use hyperlogloglog.Base.{
  ℕ, zero, suc, ◌+◌, ◌-◌, ◌%◌, ◌^◌, ◌≤◌, ◌<◌, ◌≡◌, refl, sym, ap, ap₂, ◌∙◌, arith, true, false, ltb,
  leb, ◌==◌, ◌&&◌, if◌then◌else◌, Bool-cases, inl, inr,
}
use hyperlogloglog.PackedVector.{
  PackedVector, int_place, word_at, get, set_at, append, shift_right, insert,
}
use hyperlogloglog.PackedVector.Valid.{IsValid, set_at-IsValid}
use hyperlogloglog.PackedVector.Elements.{
  elem_size-set_at, size-set_at, get-set_at, append-IsValid, size-append, get-append,
  elem_size-append,
}
use hyperlogloglog.PackedVector.Shifts.{
  SameShape, set_at-SameShape, SameShape-trans, get-set_at-get,
}

-- The loop of `insert` on indices that are not negative, from `j` on.
move_up : ℕ → ℕ → PackedVector → PackedVector
move_up i zero v = v
move_up i (suc j) v = elim (leb i j) [ true ↦ move_up i j (set_at v (j + 1) (get v j)) | false ↦ v ]

move_up-more :
    (i j : ℕ) (v : PackedVector)
    → leb i j ≡ true
    → move_up i (suc j) v ≡ move_up i j (set_at v (j + 1) (get v j))
unfolding move_up
move_up-more i j v more = rw (more, move_up)

move_up-done : (i j : ℕ) (v : PackedVector) → leb i j ≡ false → move_up i (suc j) v ≡ v
unfolding move_up
move_up-done i j v done = rw (done, move_up)

move_up-zero : (i : ℕ) (v : PackedVector) → move_up i zero v ≡ v
unfolding move_up
move_up-zero i v = refl

move_up-SameShape :
    {limit : ℕ} (i n : ℕ) {v : PackedVector}
    → IsValid limit v
    → n < v.size
    → SameShape limit v (move_up i n v)
move_up-SameShape i zero {v} valid h =
    rw (move_up-zero i v) (record { valid = valid; size = refl; elem_size = refl })
move_up-SameShape i (suc j) {v} valid h = elim (Bool-cases (leb i j)) [
  | inl more ↦
      let step = set_at-SameShape (j + 1) (get v j) valid (omega arith) in
      rw (move_up-more i j v more)
        (SameShape-trans step (move_up-SameShape i j step.valid (rw step.size (omega arith))))
  | inr done ↦
      rw (move_up-done i j v done) (record { valid = valid; size = refl; elem_size = refl })
]

-- The loop of `insert` moves the elements from `i` on by one place.
get-move_up :
    {limit : ℕ} (i n k : ℕ) {v : PackedVector}
    → IsValid limit v
    → n < v.size
    → k < v.size
    → get (move_up i n v) k ≡ (if ltb i k && leb k n then get v (k - 1) else get v k)
get-move_up i zero k {v} valid h hk = rw (move_up-zero i v) (ground arith)
get-move_up i (suc j) k {v} valid h hk = elim (Bool-cases (leb i j)) [
  | inl more ↦ rw (move_up-more i j v more) (
      ground (
        arith,
        get-move_up i j k (set_at-IsValid (j + 1) (get v j) valid (omega arith)),
        size-set_at v (j + 1) (get v j),
        get-set_at-get (j + 1) j (k - 1) valid,
        get-set_at-get (j + 1) j k valid,
      ))
  | inr done ↦ rw (move_up-done i j v done) (ground arith)
]

-- The places of indices below 2 ^ 31.
int_place-small : (x : ℕ) → x < 2 ^ 31 → int_place x ≡ x + 2 ^ 31
unfolding int_place
int_place-small x h = omega arith

word_at-small : (x : ℕ) → x < 2 ^ 31 → word_at (x + 2 ^ 31) ≡ x
unfolding word_at
word_at-small x h = omega arith

shift_right-more :
    (low j : ℕ) (v : PackedVector)
    → leb low j ≡ true
    → shift_right low (suc j) v ≡ shift_right low j (set_at v (word_at (j + 1)) (get v (word_at j)))
unfolding shift_right
shift_right-more low j v more = rw (more, shift_right)

shift_right-done :
    (low j : ℕ) (v : PackedVector) → leb low j ≡ false → shift_right low (suc j) v ≡ v
unfolding shift_right
shift_right-done low j v done = rw (done, shift_right)

-- On them the loop with its casts is the one without.
shift_right-move_up :
    (i n : ℕ) (v : PackedVector)
    → n < 2 ^ 31
    → shift_right (i + 2 ^ 31) (n + 2 ^ 31) v ≡ move_up i n v
shift_right-move_up i zero v h =
    let start : 0 + 2 ^ 31 ≡ suc (2 ^ 31 - 1) = omega arith in
    ap (λ p. shift_right (i + 2 ^ 31) p v) start
    ∙ shift_right-done (i + 2 ^ 31) (2 ^ 31 - 1) v (ground arith)
    ∙ sym (move_up-zero i v)
shift_right-move_up i (suc j) v h =
    let step : suc j + 2 ^ 31 ≡ suc (j + 2 ^ 31) = omega arith in
    ap (λ p. shift_right (i + 2 ^ 31) p v) step ∙ elim (Bool-cases (leb i j)) [
      | inr done ↦
          shift_right-done (i + 2 ^ 31) (j + 2 ^ 31) v (ground (arith, done))
          ∙ sym (move_up-done i j v done)
      | inl more ↦
          let here : word_at (j + 2 ^ 31) ≡ j = word_at-small j (omega arith) in
          let next : word_at (j + 2 ^ 31 + 1) ≡ j + 1 =
            ap word_at {x = j + 2 ^ 31 + 1} {y = j + 1 + 2 ^ 31} (omega arith)
            ∙ word_at-small (j + 1) (omega arith) in
          shift_right-more (i + 2 ^ 31) (j + 2 ^ 31) v (ground (arith, more))
          ∙ ap₂ (λ a b. shift_right (i + 2 ^ 31) (j + 2 ^ 31) (set_at v a (get v b))) next here
          ∙ shift_right-move_up i j (set_at v (j + 1) (get v j)) (omega arith)
          ∙ sym (move_up-more i j v more)
    ]

module _ {limit : ℕ} {v : PackedVector} (i x : ℕ) (valid : IsValid limit v) (room : v.size < limit)
    (ints : limit < 2 ^ 31) (h : i ≤ v.size) where
  open_gap : SameShape limit (append v 0) (move_up i ((append v 0).size - 1) (append v 0))
  open_gap =
      move_up-SameShape i _ (append-IsValid valid room 0)
        (rw (size-append valid room 0) (omega arith))

  in_gap : i < (move_up i ((append v 0).size - 1) (append v 0)).size
  in_gap = omega (arith, open_gap.size, size-append valid room 0)

  insert-move_up : insert v i x ≡ set_at (move_up i ((append v 0).size - 1) (append v 0)) i x
  unfolding insert
  insert-move_up =
      let size = size-append valid room 0 in
      let first : int_place i ≡ i + 2 ^ 31 = int_place-small i (omega (arith, ints)) in
      let last : int_place (append v 0).size - 1 ≡ (append v 0).size - 1 + 2 ^ 31 =
        omega (arith, int_place-small (append v 0).size (omega (arith, size, ints)), size) in
      ap₂ (λ a b. set_at (shift_right a b (append v 0)) i x) first last
      ∙ ap (λ w. set_at w i x)
          (shift_right-move_up i ((append v 0).size - 1) (append v 0) (omega (arith, size, ints)))

  -- `insert` at an index up to the size of a valid vector below its limit gives a valid vector.
  pub insert-IsValid : IsValid limit (insert v i x)
  insert-IsValid = rw insert-move_up (set_at-IsValid i x open_gap.valid in_gap)

  pub size-insert : (insert v i x).size ≡ v.size + 1
  size-insert =
      ap (λ (w : PackedVector). w.size) insert-move_up
      ∙ size-set_at _ i x
      ∙ open_gap.size
      ∙ size-append valid room 0

  -- In a valid vector below its limit, which is below 2 ^ 31, `insert` at an index up to the size puts the element,
  -- cut to the size of an element, at the index and moves those from the index on by one place.
  pub get-insert :
      (k : ℕ)
      → k ≤ v.size
      → get (insert v i x) k
        ≡ (if k == i then x % 2 ^ v.elem_size else if ltb k i then get v k else get v (k - 1))
  get-insert k hk = rw insert-move_up (
      ground (
        arith,
        get-set_at i k x open_gap.valid in_gap,
        open_gap.size,
        open_gap.elem_size,
        elem_size-append v 0,
        size-append valid room 0,
        get-move_up i ((append v 0).size - 1) k (append-IsValid valid room 0),
        get-append valid room k 0,
        get-append valid room (k - 1) 0,
      ))

pub elem_size-insert :
    {limit : ℕ} {v : PackedVector} (i x : ℕ)
    → IsValid limit v
    → v.size < limit
    → limit < 2 ^ 31
    → i ≤ v.size
    → (insert v i x).elem_size ≡ v.elem_size
elem_size-insert {v = v} i x valid room ints h =
    ap (λ (w : PackedVector). w.elem_size) (insert-move_up i x valid room ints h)
    ∙ elem_size-set_at _ i x
    ∙ (open_gap i x valid room ints h).elem_size
    ∙ elem_size-append v 0
