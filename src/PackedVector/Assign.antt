-- ===== src/PackedVector/Assign.antt =====
-- The default constructor, the moves and the assignments of a vector.
use hyperlogloglog.Base.{ℕ, ◌≡◌, refl, Bool, true, false, [], if◌then◌else◌}
use hyperlogloglog.PackedVector.{PackedVector, copy, swap, get}

-- `PackedVector()`: the initialisers of the fields.
unfoldable pub empty : PackedVector
empty = record { elem_size = 0; elem_mask = 0; size = 0; arr = []; capacity = 0; is_null = true }

-- The move constructor: the new vector, and what is left of the other.
unfoldable pub move : PackedVector → PackedVector × PackedVector
unfolding swap empty
move that = swap empty that

-- `operator=` by copy; the test says whether the two are one object.
unfoldable pub assign : Bool → PackedVector → PackedVector → PackedVector
unfolding copy swap
assign same this that = if same then this else (swap (copy that) this).1

-- `operator=` by move: both vectors after it.
unfoldable pub move_assign : Bool → PackedVector → PackedVector → PackedVector × PackedVector
unfolding swap
move_assign same this that = if same then (this, that) else swap this that

-- A vector that is assigned has the elements of the other, also where it is assigned to itself.
pub get-assign :
    (same : Bool) (this that : PackedVector) (i : ℕ)
    → (same ≡ true → this ≡ that)
    → ((assign same this that).size ≡ that.size) × (get (assign same this that) i ≡ get that i)
unfolding assign
get-assign true this that i one = rw (one refl) (refl, refl)
get-assign false this that i one = (refl, unfold get in refl)

-- A move empties the vector that is moved, and an assignment by move exchanges the two.
pub move-twice :
    (that : PackedVector)
    → ((move that).0 ≡ that)
      × ((move that).1 ≡ empty)
      × (move_assign false (move that).0 (move that).1 ≡ (empty, that))
unfolding move move_assign
move-twice that = (refl, refl, refl)
