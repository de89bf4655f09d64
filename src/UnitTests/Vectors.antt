-- ===== src/UnitTests/Vectors.antt =====
-- `test_packed_vector2` of hyperlogloglog/test.cpp: two packed vectors beside a `std::vector`, with
-- the elements and the positions that are drawn as arguments, and their number as the code's `n`.
pub mod Passes
use hyperlogloglog.Base.{
  ℕ, zero, suc, ◌+◌, ◌-◌, ◌*◌, ◌%◌, ◌^◌, ◌≤◌, ◌<◌, ◌≡◌, refl, sym, subst, ap, ap₂, ◌∙◌, arith, Bool,
  true, false, ◌&&◌, not, List, [], ◌∷◌, ◌++◌, length, get_or, set, replicate, ◌==◌, if◌then◌else◌,
  length-set, get_or-set, get_or_ext, length-replicate, get_or-replicate, length-append,
}
use hyperlogloglog.PackedVector.{PackedVector, new, get, set_at, append, insert, erase}
use hyperlogloglog.PackedVector.Reference.{
  insert_at, erase_at, length-insert_at, length-erase_at, get_or-snoc, Edits, created, stored,
  appended, inserted, erased, Agrees, Edits-Agrees,
}

pub record Vectors : Type 0 where
  pub correct : List ℕ
  pub pv1 : PackedVector
  pub pv2 : PackedVector

unfoldable pub start : ℕ → Vectors
start n = record { correct = replicate n 0; pv1 = new 10 n; pv2 = new 10 0 }

-- The loop before anything is written, from `i` on.
unfoldable pub zeros : ℕ → ℕ → Vectors → Bool
zeros zero i t = true
zeros (suc rounds) i t =
    let rest = zeros rounds (i + 1) t in
    (get t.pv1 i == 0) && (get t.pv1 i == get_or t.correct i 0) && rest

-- The loop of the function `equal` of the test, from `i` on.
unfoldable pub equal_from : ℕ → List ℕ → PackedVector → Bool
equal_from i [] p = true
equal_from i (x ∷ xs) p =
    let rest = equal_from (i + 1) xs p in if not (x == get p i) then false else rest

unfoldable pub equal : List ℕ → PackedVector → Bool
unfolding equal_from
equal v p = if not (length v == p.size) then false else equal_from 0 v p

-- The loops that write, append, insert and erase, with what they draw.
unfoldable pub store_all : ℕ → List ℕ → Vectors → Vectors
store_all i [] t = t
store_all i (x ∷ draws) t =
    store_all (i + 1) draws
      (record { correct = set t.correct i x; pv1 = set_at t.pv1 i x; pv2 = append t.pv2 x })

unfoldable pub append_all : List ℕ → Vectors → Vectors
append_all [] t = t
append_all (x ∷ draws) t =
    append_all draws
      (record { correct = t.correct ++ x ∷ []; pv1 = append t.pv1 x; pv2 = append t.pv2 x })

unfoldable pub insert_all : List (ℕ × ℕ) → Vectors → Vectors
insert_all [] t = t
insert_all ((j, x) ∷ draws) t =
    insert_all draws
      (record { correct = insert_at t.correct j x; pv1 = insert t.pv1 j x; pv2 = insert t.pv2 j x })

unfoldable pub erase_all : List ℕ → Vectors → Vectors
erase_all [] t = t
erase_all (j ∷ draws) t =
    erase_all draws
      (record { correct = erase_at t.correct j; pv1 = erase t.pv1 j; pv2 = erase t.pv2 j })

unfoldable pub both_equal : Vectors → Bool
both_equal t = equal t.correct t.pv1 && equal t.correct t.pv2

unfoldable pub sizes_are : ℕ → Vectors → Bool
sizes_are n t = (t.pv1.size == n) && (t.pv2.size == n) && (length t.correct == n)

-- What the four loops draw.
pub record Draws : Type 0 where
  pub written : List ℕ
  pub appended : List ℕ
  pub inserted : List (ℕ × ℕ)
  pub erased : List ℕ

unfoldable pub test_packed_vector2 : ℕ → Draws → Bool
unfolding start zeros store_all append_all insert_all erase_all both_equal sizes_are
test_packed_vector2 n drawn =
    let t₀ = start n in
    let t₁ = store_all 0 drawn.written t₀ in
    let t₂ = append_all drawn.appended t₁ in
    let t₃ = insert_all drawn.inserted t₂ in
    let t₄ = erase_all drawn.erased t₃ in
    (t₀.pv1.size == n)
    && (t₀.pv2.size == 0)
    && zeros n 0 t₀
    && both_equal t₁
    && sizes_are (2 * n) t₂
    && both_equal t₂
    && both_equal t₃
    && sizes_are (3 * n) t₃
    && sizes_are (2 * n) t₄
    && both_equal t₄

-- The elements are drawn from those of 10 bits, and a position below the size.
abbrev pub AreElements : List ℕ → Type 0
AreElements [] = Unit {0}
AreElements (x ∷ draws) = (x < 2 ^ 10) × AreElements draws

abbrev pub AreInsertions : ℕ → List (ℕ × ℕ) → Type 0
AreInsertions size [] = Unit {0}
AreInsertions size ((j, x) ∷ draws) = (j < size) × (x < 2 ^ 10) × AreInsertions (size + 1) draws

abbrev pub AreErasures : ℕ → List ℕ → Type 0
AreErasures size [] = Unit {0}
AreErasures size (j ∷ draws) = (j < size) × AreErasures (size - 1) draws

pub record AreDrawn (n : ℕ) (drawn : Draws) : Type 0 where
  pub counts :
      (length drawn.written ≡ n)
      × (length drawn.appended ≡ n)
      × (length drawn.inserted ≡ n)
      × (length drawn.erased ≡ n)
  pub written : AreElements drawn.written
  pub appended : AreElements drawn.appended
  pub inserted : AreInsertions (2 * n) drawn.inserted
  pub erased : AreErasures (3 * n) drawn.erased
